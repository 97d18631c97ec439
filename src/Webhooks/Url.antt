-- ===== src/Webhooks/Url.antt =====
-- src/webhooks/webhook-url.util.ts: which URL an endpoint may have. The URL parser of the platform
-- is a parameter, which gives the parts that are read, or nothing for a text that is no URL.
pub mod Public
mod Examples
use drasken_labs_communicati.Prelude.Words.{split}
use drasken_labs_communicati.Prelude.Pattern.{at_end, literal, repeat}
use drasken_labs_communicati.Prelude.{
  is_upper, ℕ, zero, suc, ◌+◌, ◌-◌, ◌*◌, ◌/◌, ◌%◌, Text, Bool, true, false, not, ◌&&◌, ◌||◌, List,
  [], ◌∷◌, ◌++◌, Option, none, some, codes, decimal, value_from, text_eq, length, take, drop, all,
  any, truthy, is_digit, ltb, leb, ◌==◌, if◌then◌else◌, map,
}

abbrev pub local_hostnames : List Text
local_hostnames =
    codes "localhost"
    ∷ codes "localhost.localdomain"
    ∷ codes "ip6-localhost"
    ∷ codes "ip6-loopback"
    ∷ []

abbrev pub local_suffixes : List Text
local_suffixes =
    codes ".localhost" ∷ codes ".local" ∷ codes ".internal" ∷ codes ".cluster.local" ∷ []

-- `/^\d{1,3}$/`, and `Number`; `none` is NaN.
unfoldable pub octet : Text → Option ℕ
octet part =
    if leb 1 (length part) && (leb (length part) 3 && all is_digit part)
    then some (value_from 0 part)
    else none

-- The ranges that are refused, by the first two octets.
unfoldable pub is_private_range : ℕ → ℕ → Bool
is_private_range a b =
    a == 0
    || (a == 10
        || (a == 127
            || (a == 100 && (leb 64 b && leb b 127)
                || (a == 169 && b == 254
                    || (a == 172 && (leb 16 b && leb b 31)
                        || (a == 192 && b == 168
                            || (a == 198 && (b == 18 || b == 19) || leb 224 a)))))))

-- Four octets up to 255.
unfoldable pub quad_is_private : List (Option ℕ) → Bool
quad_is_private (some a ∷ some b ∷ some c ∷ some d ∷ []) =
    leb a 255 && (leb b 255 && (leb c 255 && leb d 255)) && is_private_range a b
quad_is_private _ = false

unfoldable pub is_private_ipv4 : Text → Bool
is_private_ipv4 host = quad_is_private (map octet (split b'.' host))

-- The parts of a URL that are read, and its text as it is stored.
pub record Url : Type 0 where
  pub protocol : Text
  pub username : Text
  pub password : Text
  pub hostname : Text
  pub href : Text

pub data UrlError : Type 0 where
  not_a_url not_https has_credentials no_hostname not_public : UrlError

pub data UrlResult : Type 0 where
  refused : UrlError → UrlResult
  accepted : Text → UrlResult

unfoldable pub ends_with : Text → Text → Bool
ends_with suffix [] = text_eq suffix []
ends_with suffix (c ∷ s) = text_eq suffix (c ∷ s) || ends_with suffix s

-- `toLowerCase` of a hostname, which the URL parser gives in ASCII.
unfoldable pub lower : Text → Text
lower [] = []
lower (c ∷ s) = (if is_upper c then c + 32 else c) ∷ lower s

-- `replace(/^\[|\]$/g, '')`.
abbrev pub drop_open : Text → Text
drop_open [] = []
drop_open (c ∷ s) = if c == 91 then s else c ∷ s

unfoldable pub drop_close : Text → Text
drop_close [] = []
drop_close (c ∷ []) = if c == 93 then [] else c ∷ []
drop_close (c ∷ d ∷ s) = c ∷ drop_close (d ∷ s)

abbrev pub is_hex : ℕ → Bool
is_hex c = is_digit c || leb b'a' c && leb c b'f'

abbrev pub anything : Text → Bool
anything s = true

-- `/^f[cd][0-9a-f]{2}:/` and `/^fe[89ab][0-9a-f]:/`.
unfoldable pub is_unique_local : Text → Bool
is_unique_local =
    literal (codes "f")
      (repeat (λ c. c == b'c' || c == b'd') 1 0 (repeat is_hex 2 0 (literal (codes ":") anything)))

unfoldable pub is_link_local : Text → Bool
is_link_local = literal (codes "fe") (
    repeat (λ c. c == b'8' || (c == b'9' || (c == b'a' || c == b'b'))) 1 0
      (repeat is_hex 1 0 (literal (codes ":") anything)))

-- `\d{1,3}(?:\.\d{1,3}){3}`, to the end.
unfoldable pub is_dotted : Text → Bool
is_dotted = repeat is_digit 1 2 (
    literal (codes ".") (
      repeat is_digit 1 2 (
        literal (codes ".")
          (repeat is_digit 1 2 (literal (codes ".") (repeat is_digit 1 2 at_end))))))

-- `([0-9a-f]{1,4}):([0-9a-f]{1,4})`, to the end.
unfoldable pub is_two_hextets : Text → Bool
is_two_hextets = repeat is_hex 1 3 (literal (codes ":") (repeat is_hex 1 3 at_end))

-- `parseInt(_, 16)` of lower-case digits.
unfoldable pub hex_value : ℕ → Text → ℕ
hex_value acc [] = acc
hex_value acc (c ∷ s) = hex_value (acc * 16 + (if is_digit c then c - b'0' else c - b'a' + 10)) s

unfoldable pub dotted : ℕ → ℕ → ℕ → ℕ → Text
dotted a b c d = decimal a ++ (b'.' ∷ (decimal b ++ (b'.' ∷ (decimal c ++ (b'.' ∷ decimal d)))))

abbrev pub of_hextets : List Text → Bool
of_hextets (high ∷ low ∷ []) =
    let h = hex_value 0 high in
    let l = hex_value 0 low in is_private_ipv4 (dotted (h / 256) (h % 256) (l / 256) (l % 256))
of_hextets _ = false

-- What follows `::ffff:`.
unfoldable pub is_private_mapped : Text → Bool
is_private_mapped rest =
    if is_dotted rest
    then is_private_ipv4 rest
    else is_two_hextets rest && of_hextets (split b':' rest)

unfoldable pub is_private_address : Text → Bool
is_private_address address =
    any (λ c. c == b':') address
    && (text_eq address (codes "::")
        || (text_eq address (codes "::1")
            || (is_unique_local address
                || (is_link_local address || literal (codes "::ffff:") is_private_mapped address))))

unfoldable pub is_private_ipv6 : Text → Bool
is_private_ipv6 host = is_private_address (lower (drop_close (drop_open host)))

unfoldable pub is_local : Text → Bool
is_local host =
    any (λ name. text_eq name host) local_hostnames
    || (any (λ suffix. ends_with suffix host) local_suffixes
        || (is_private_ipv4 host || is_private_ipv6 host))

unfoldable pub check_host : Bool → Text → Text → UrlResult
check_host allow_insecure href host =
    if not (truthy (some host))
    then refused no_hostname
    else if not allow_insecure && is_local host
    then refused not_public
    else accepted href

unfoldable pub check_url : Bool → Option Url → UrlResult
check_url allow_insecure none = refused not_a_url
check_url allow_insecure (some url) =
    if not (text_eq url.protocol (codes "https:"))
      && not (allow_insecure && text_eq url.protocol (codes "http:"))
    then refused not_https
    else if truthy (some url.username) || truthy (some url.password)
    then refused has_credentials
    else check_host allow_insecure url.href (lower url.hostname)

-- `assertSafeWebhookUrl`.
unfoldable pub assert_safe_webhook_url : (Text → Option Url) → Text → Bool → UrlResult
assert_safe_webhook_url parse raw allow_insecure = check_url allow_insecure (parse raw)
