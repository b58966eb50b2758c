-- ===== src/Group/Lease.antt =====
-- Looking up a lease in castd/p2p/group_network.py.
use miracast_device.Base.{
  ◌≡◌, refl, ◌∙◌, ap, List, [], ◌∷◌, ◌++◌, none, some, Text, All, splitlines, words, text_eq_refl,
}
use miracast_device.Base.Words.{IsField, words-field}
use miracast_device.Group.{lease_in_line, lease_in_lines, find_lease_ip, lease_fields}

-- A line of the lease file as dnsmasq writes it.
abbrev pub lease_line : Text → Text → Text → Text → Text
lease_line expiry mac ip rest = expiry ++ (b' ' ∷ (mac ++ (b' ' ∷ (ip ++ (b' ' ∷ rest)))))

lease_in_line-lease_line :
    (lower : Text → Text) (wanted expiry mac ip rest : Text)
    → IsField expiry
    → IsField mac
    → IsField ip
    → lower mac ≡ wanted
    → lease_in_line lower wanted (lease_line expiry mac ip rest) ≡ some ip
unfolding lease_in_line
lease_in_line-lease_line lower wanted expiry mac ip rest e m i same =
    ap (lease_fields lower wanted) (
      words-field expiry (mac ++ (b' ' ∷ (ip ++ (b' ' ∷ rest)))) e
      ∙ ap (λ ws. expiry ∷ ws)
          (words-field mac (ip ++ (b' ' ∷ rest)) m ∙ ap (λ ws. mac ∷ ws) (words-field ip rest i)))
    ∙ found
  where
    found : lease_fields lower wanted (expiry ∷ mac ∷ ip ∷ words rest) ≡ some ip
    found = rw (same, text_eq_refl wanted) refl

lease_in_lines-first :
    (lower : Text → Text) (wanted ip : Text) (before : List Text) (line : Text) (after : List Text)
    → All (λ l. lease_in_line lower wanted l ≡ none) before
    → lease_in_line lower wanted line ≡ some ip
    → lease_in_lines lower wanted (before ++ line ∷ after) ≡ some ip
unfolding lease_in_lines
lease_in_lines-first lower wanted ip [] line after h k = rw (k, lease_in_lines)
lease_in_lines-first lower wanted ip (l ∷ ls) line after h k =
    rw (h.0, lease_in_lines) (lease_in_lines-first lower wanted ip ls line after h.1 k)

-- The address that dnsmasq has leased to a station is found in the first line that names the
-- station, whatever stands in the line after the address and in the lines after it, when the two
-- spellings of the hardware address agree in lower case.
pub find_lease_ip_first :
    (lower : Text → Text) (mac expiry leased ip rest text : Text) (before after : List Text)
    → splitlines text ≡ before ++ lease_line expiry leased ip rest ∷ after
    → All (λ l. lease_in_line lower (lower mac) l ≡ none) before
    → IsField expiry
    → IsField leased
    → IsField ip
    → lower leased ≡ lower mac
    → find_lease_ip lower mac (some text) ≡ some ip
unfolding find_lease_ip
find_lease_ip_first lower mac expiry leased ip rest text before after s h e m i same = rw s (
    lease_in_lines-first lower (lower mac) ip before _ after h
      (lease_in_line-lease_line lower (lower mac) expiry leased ip rest e m i same))
