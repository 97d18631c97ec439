-- ===== src/Webhooks/Url/Public.antt =====
-- Webhooks/Url: endpoints whose host is a dotted quad of a range that is not public.
use drasken_labs_communicati.Prelude.{
  ℕ, ◌<◌, ◌≤◌, ◌≡◌, refl, sym, ap, ◌∙◌, Text, Bool, true, false, [], ◌∷◌, ◌++◌, Option, none, some,
  codes, decimal, text_eq, has_no, not, ◌&&◌, ◌||◌, subst, ◌==◌, passes_under, passes_under_at,
  arith, map, truthy, Bool-cases, inl, inr, value_from,
}
use drasken_labs_communicati.Prelude.Words.{split}
use drasken_labs_communicati.Webhooks.Url.{
  octet, is_private_range, quad_is_private, is_private_ipv4, dotted, is_local, check_host,
  check_url, Url, UrlResult, UrlError, no_hostname, not_https, has_credentials, refused, not_public,
  lower, assert_safe_webhook_url,
}

split-cut :
    (sep : ℕ) (s t : Text) → has_no sep s ≡ true → split sep (s ++ sep ∷ t) ≡ s ∷ split sep t
unfolding split
split-cut sep [] t h = ground arith
split-cut sep (c ∷ s) t h = ground (arith, split-cut sep s t)

split_whole : (sep : ℕ) (s : Text) → has_no sep s ≡ true → split sep s ≡ s ∷ []
unfolding split
split_whole sep [] h = refl
split_whole sep (c ∷ s) h = ground (arith, split_whole sep s)

-- The octets are finitely many.
is_octet : ℕ → Bool
is_octet n = has_no b'.' (decimal n) && elim (octet (decimal n)) [ none ↦ false | some m ↦ m == n ]

all_are_octets : passes_under is_octet 256 ≡ true
unfolding passes_under is_octet octet decimal value_from
all_are_octets = refl

no_dot : (n : ℕ) → n < 256 → has_no b'.' (decimal n) ≡ true
unfolding is_octet
no_dot n lt = ground (arith, passes_under_at is_octet 256 n lt all_are_octets)

octet-decimal : (n : ℕ) → n < 256 → octet (decimal n) ≡ some n
unfolding is_octet
octet-decimal n lt = ground (arith, passes_under_at is_octet 256 n lt all_are_octets)

-- A dotted quad is private exactly if its range is.
pub is_private_ipv4-dotted :
    (a b c d : ℕ)
    → a < 256
    → b < 256
    → c < 256
    → d < 256
    → is_private_ipv4 (dotted a b c d) ≡ is_private_range a b
unfolding is_private_ipv4 dotted quad_is_private
is_private_ipv4-dotted a b c d p q r s =
    let parts =
      split-cut b'.' (decimal a) (decimal b ++ (b'.' ∷ (decimal c ++ (b'.' ∷ decimal d))))
        (no_dot a p)
      ∙ ap (◌∷◌ (decimal a))
          (split-cut b'.' (decimal b) (decimal c ++ (b'.' ∷ decimal d)) (no_dot b q))
      ∙ ap (λ l. decimal a ∷ decimal b ∷ l) (split-cut b'.' (decimal c) (decimal d) (no_dot c r))
      ∙ ap (λ l. decimal a ∷ decimal b ∷ decimal c ∷ l)
          (split_whole b'.' (decimal d) (no_dot d s)) in
    ap (λ l. quad_is_private (map octet l)) parts
    ∙ rw (octet-decimal a p, octet-decimal b q, octet-decimal c r, octet-decimal d s) (ground arith)

quad-is_local : (host : Text) → is_private_ipv4 host ≡ true → is_local host ≡ true
unfolding is_local
quad-is_local host h = ground arith

pub IsRefused : UrlResult → Type 0
IsRefused result = (e : UrlError) × (result ≡ refused e)

check_host-local :
    (href host : Text) → is_local host ≡ true → IsRefused (check_host false href host)
unfolding check_host IsRefused
check_host-local href [] h = (no_hostname, refl)
check_host-local href (c ∷ s) h = (not_public, rw h refl)

check_url-local :
    (url : Url) → is_local (lower url.hostname) ≡ true → IsRefused (check_url false (some url))
unfolding check_url IsRefused
check_url-local url h =
    let safe = check_host-local url.href (lower url.hostname) h in
    let secure =
      not (text_eq url.protocol (codes "https:"))
      && not (false && text_eq url.protocol (codes "http:")) in
    let named = truthy (some url.username) || truthy (some url.password) in
    elim (Bool-cases secure) [
      | inl bad ↦ (not_https, ground arith)
      | inr good ↦ elim (Bool-cases named) [
        | inl credentials ↦ (has_credentials, ground arith)
        | inr free ↦ let (e, same) = safe in (e, ground arith)
      ]
    ]

-- The ranges of the quads `a.b.*.*` that are not public, each as its block is written: 0/8, 10/8, 127/8,
-- 100.64/10, 169.254/16, 172.16/12, 192.168/16, 198.18/15, and 224/4 with what follows it.
pub data IsNotPublic : ℕ → ℕ → Type 0 where
  this_network : {b : ℕ} → IsNotPublic 0 b
  private_10 : {b : ℕ} → IsNotPublic 10 b
  loopback : {b : ℕ} → IsNotPublic 127 b
  carrier_grade : {b : ℕ} → 64 ≤ b → b ≤ 127 → IsNotPublic 100 b
  link_local : IsNotPublic 169 254
  private_172 : {b : ℕ} → 16 ≤ b → b ≤ 31 → IsNotPublic 172 b
  private_192 : IsNotPublic 192 168
  benchmarking : {b : ℕ} → 18 ≤ b → b ≤ 19 → IsNotPublic 198 b
  multicast : {a b : ℕ} → 224 ≤ a → IsNotPublic a b

IsNotPublic-is_private_range : {a b : ℕ} → IsNotPublic a b → is_private_range a b ≡ true
unfolding is_private_range
IsNotPublic-is_private_range this_network = refl
IsNotPublic-is_private_range private_10 = refl
IsNotPublic-is_private_range loopback = refl
IsNotPublic-is_private_range (carrier_grade lo hi) = ground arith
IsNotPublic-is_private_range link_local = refl
IsNotPublic-is_private_range (private_172 lo hi) = ground arith
IsNotPublic-is_private_range private_192 = refl
IsNotPublic-is_private_range (benchmarking lo hi) = ground arith
IsNotPublic-is_private_range (multicast lo) = ground arith

-- A URL whose host is a dotted quad of 0/8 (this network), 10/8, 172.16/12 or 192.168/16 (private),
-- 127/8 (loopback), 100.64/10 (carrier-grade), 169.254/16 (link-local), 198.18/15 (benchmarking), or
-- from 224 on (multicast and reserved) is refused by a deployment that does not allow insecure
-- endpoints, whatever its other parts.
pub assert_safe_webhook_url-IsRefused :
    (parse : Text → Option Url) (raw : Text) (url : Url) (a b c d : ℕ)
    → parse raw ≡ some url
    → lower url.hostname ≡ dotted a b c d
    → a < 256
    → b < 256
    → c < 256
    → d < 256
    → IsNotPublic a b
    → IsRefused (assert_safe_webhook_url parse raw false)
unfolding assert_safe_webhook_url
assert_safe_webhook_url-IsRefused parse raw url a b c d parsed host p q r s hidden =
    let quad : is_private_ipv4 (lower url.hostname) ≡ true =
      ap is_private_ipv4 host
      ∙ is_private_ipv4-dotted a b c d p q r s
      ∙ IsNotPublic-is_private_range hidden in
    subst (λ o. IsRefused (check_url false o)) (sym parsed)
      (check_url-local url (quad-is_local (lower url.hostname) quad))
