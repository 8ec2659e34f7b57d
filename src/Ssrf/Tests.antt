-- ===== src/Ssrf/Tests.antt =====
-- packages/shared/src/ssrf.ts: the guard run on addresses.
use legends_chat.Common.{◌≡◌, refl, true, false, arith}
use legends_chat.Image.Bytes.{codes}
use legends_chat.Access.Permissions.{strip}
use legends_chat.Ssrf.{
  trim_start, trim_end, cleaned, split_at, is_dotted, v4_of, decimal, is_special, is_blocked_v4,
  hex_digits, unprefixed, parse_hex, is_blocked_hextet, is_blocked_v6, is_blocked_ip,
}
use legends_chat.Ssrf.Dotted.{three, mapped}
use legends_chat.Ssrf.Addresses.{Address, v4, is_blocked_ip-printed}

blocked_test :
    (is_blocked_ip (codes "169.254.169.254") ≡ true)
    × (is_blocked_ip (codes " ::FFFF:10.0.0.1 ") ≡ true)
    × (is_blocked_ip (codes "8.8.8.8") ≡ false)
    × (is_blocked_ip (codes "300.1.1.1") ≡ true)
    × (is_blocked_ip (codes "192.0.78.24") ≡ true)
unfolding is_blocked_ip cleaned trim_start trim_end split_at is_dotted v4_of strip decimal
    is_special is_blocked_v4
blocked_test = (refl, refl, refl, refl, refl)

blocked_v6_test :
    (is_blocked_ip (codes "::1") ≡ true)
    × (is_blocked_ip (codes "fe80::1%eth0") ≡ true)
    × (is_blocked_ip (codes "2001:4860::8888") ≡ false)
    × (is_blocked_ip (codes "") ≡ true)
unfolding is_blocked_ip cleaned trim_start trim_end split_at is_dotted v4_of strip is_blocked_v6
    parse_hex hex_digits unprefixed is_blocked_hextet
blocked_v6_test = (refl, refl, refl, refl)

-- What passes although it is no address of a public host: a text that is malformed, and addresses
-- for documentation.
passes_test :
    (is_blocked_ip (codes "2001junk") ≡ false)
    × (is_blocked_ip (codes "3fff.evil.example") ≡ false)
    × (is_blocked_ip (codes "203.0.113.7") ≡ false)
    × (is_blocked_ip (codes "198.51.100.7") ≡ false)
unfolding is_blocked_ip cleaned trim_start trim_end split_at is_dotted v4_of strip decimal
    is_special is_blocked_v4 is_blocked_v6 parse_hex hex_digits unprefixed is_blocked_hextet
passes_test = (refl, refl, refl, refl)

-- 169.254.169.254, mapped and with spaces.
abbrev metadata : Address
metadata = v4 (mapped true false true false) (three 1 6 9) (three 2 5 4) (three 1 6 9) (three 2 5 4)

is_blocked_ip-printed_example : is_blocked_ip (codes " ::FfFf:169.254.169.254 ") ≡ true
is_blocked_ip-printed_example = is_blocked_ip-printed (codes " ") (codes " ") metadata refl refl (
  (omega arith, omega arith, omega arith),
  (omega arith, omega arith, omega arith),
  (omega arith, omega arith, omega arith),
  (omega arith, omega arith, omega arith),
)
