-- ===== src/Tests/Fields.antt =====
-- Examples of the signed byte strings and of their fields.
use net_tls.Prelude.{◌≡◌, ◌↔◌, refl, none}
use net_tls.Prelude.Int.{pos}
use net_tls.Prelude.Text.{codes, utf8}
use net_tls.Prelude.Decimal.{to_string}
use net_tls.Error.{ok}
use net_tls.Canonical.{
  assemble, rotate_v2, require_fingerprint, require_component_name, require_name,
  require_fingerprint_if,
}
use net_tls.Canonical.Fields.{IsName, require_name_iff}
use net_tls.Canonical.Messages.{Message, rotate, signed_bytes}
use net_tls.Canonical.Distinct.{signed_bytes-inj}
use net_tls.Tests.Toy.{encode}
use net_tls.Tests.Data.{gateway, old_der, new_der, fp_of, rotate_message}

abbrev turn : Message
turn = rotate gateway none (fp_of old_der) (fp_of new_der) (pos 100)

turn_bytes : signed_bytes turn ≡ ok rotate_message
unfolding rotate_v2 require_component_name require_fingerprint require_fingerprint_if utf8 encode
    to_string assemble
turn_bytes = refl

signed_bytes-inj_example : turn ≡ turn
signed_bytes-inj_example = signed_bytes-inj turn turn rotate_message tt tt turn_bytes turn_bytes

require_name_iff_example :
    (require_name (codes "bjørn-øyvind") "name" 64 ≡ ok tt) ↔ IsName (codes "bjørn-øyvind") 64
require_name_iff_example = require_name_iff (codes "bjørn-øyvind") "name" 64
