-- ===== src/Webhooks/Url/Examples.antt =====
-- Runs of src/webhooks/webhook-url.util.ts, and its theorem at a concrete input.
use drasken_labs_communicati.Prelude.{
  value_from, decimal_from, text_eq, decimal, ◌≡◌, refl, Text, codes, true, false, [], some, Option,
  arith,
}
use drasken_labs_communicati.Prelude.Words.{split}
use drasken_labs_communicati.Webhooks.Url.{
  quad_is_private, octet, is_private_ipv4, hex_value, is_two_hextets, is_dotted, is_private_mapped,
  is_link_local, is_private_range, is_unique_local, ends_with, is_private_address, check_host,
  dotted, drop_close, check_url, lower, Url, assert_safe_webhook_url, accepted, is_private_ipv6,
  is_local,
}
use drasken_labs_communicati.Webhooks.Url.Public.{
  link_local, IsRefused, assert_safe_webhook_url-IsRefused,
}
use drasken_labs_communicati.Prelude.Pattern.{at_end, repeat, literal}

-- The URLs of one host.
abbrev at_host : Text → Text → Option Url
at_host host raw = some (record {
  protocol = codes "https:";
  username = [];
  password = [];
  hostname = host;
  href = raw;
})

abbrev metadata : Url
metadata = record {
  protocol = codes "https:";
  username = [];
  password = [];
  hostname = codes "169.254.169.254";
  href = codes "https://169.254.169.254/";
}

mapped_metadata : is_private_ipv6 (codes "[::FFFF:a9fe:a9fe]") ≡ true
unfolding is_private_ipv6 lower drop_close is_private_address text_eq is_unique_local is_link_local
    literal repeat is_private_mapped is_dotted is_two_hextets at_end split hex_value dotted decimal
    decimal_from is_private_ipv4 octet quad_is_private is_private_range value_from
mapped_metadata = refl

mapped_public : is_private_ipv6 (codes "[::ffff:808:808]") ≡ false
unfolding is_private_ipv6 lower drop_close is_private_address text_eq is_unique_local is_link_local
    literal repeat is_private_mapped is_dotted is_two_hextets at_end split hex_value dotted decimal
    decimal_from is_private_ipv4 octet quad_is_private is_private_range value_from
mapped_public = refl

public_host :
    assert_safe_webhook_url
      (at_host (codes "hooks.example.com"))
      (codes "https://hooks.example.com/")
      false
    ≡ accepted (codes "https://hooks.example.com/")
unfolding assert_safe_webhook_url check_url check_host is_local ends_with is_private_ipv6 lower
    drop_close is_private_address text_eq is_unique_local is_link_local literal repeat
    is_private_mapped is_dotted is_two_hextets at_end split hex_value dotted decimal decimal_from
    is_private_ipv4 octet quad_is_private is_private_range value_from
public_host = refl

assert_safe_webhook_url-IsRefused_example :
    IsRefused
      (assert_safe_webhook_url (λ raw. some metadata) (codes "https://169.254.169.254/") false)
unfolding lower dotted decimal decimal_from is_private_range
assert_safe_webhook_url-IsRefused_example =
    assert_safe_webhook_url-IsRefused (λ raw. some metadata) (codes "https://169.254.169.254/")
      metadata 169 254 169 254 refl refl (omega arith) (omega arith) (omega arith) (omega arith)
      link_local
