-- ===== src/Modes/Messages.antt =====
-- announcer.rs: the names of the modes and the messages that an operator gets.
use net_tls.Prelude.{
  ℕ, ◌-◌, true, false, Option, none, some, [], ◌∷◌, ltb, leb, length, if◌then◌else◌,
}
use mathlib.Core.List.{◌++◌ as ◌+++◌}
use net_tls.Prelude.Int.{ℤ, pos, leb_ℤ, abs}
use net_tls.Prelude.Text.{Str, codes, utf8, utf8_char}
use net_tls.Prelude.Decimal.{to_string}
use net_tls.Modes.{
  Mode, pinning, rolling, ModeCheck, agree, disagree, ClockDrift, drift_warning_s, Deviation,
  unknown_certificate, invalid_signature, abandoned_certificate, FallToMode1,
}

-- `Display`
unfoldable pub mode_text : Mode → Str
mode_text pinning = codes "pinning"
mode_text rolling = codes "rolling"

unfoldable pub mode_message : ModeCheck → Str → Option Str
mode_message (agree m) peer = none
mode_message (disagree ours theirs) peer = some (
    codes "mode disagreement with "
    +++ peer
    +++ codes ": we stand in «"
    +++ mode_text ours
    +++ codes "», "
    +++ peer
    +++ codes " runs «"
    +++ mode_text theirs
    +++ codes
        "». Traffic continues, but rotation will not be attempted until both sides are set alike.")

abbrev drift_text : ℤ → Str → Str
drift_text s peer =
    codes "clock drift against "
    +++ peer
    +++ codes ": "
    +++ to_string s
    +++ codes
        " seconds. Traffic continues as normal — the clock is not load-bearing for the rotation (§6.7b) — but drift is rarely the only thing that is wrong."

abbrev drift_if : Option ℤ → Str → Option Str
drift_if none peer = none
drift_if (some s) peer =
    if leb_ℤ (abs s) (pos drift_warning_s) then none else some (drift_text s peer)

-- `ClockDrift::message`
unfoldable pub drift_message : ClockDrift → Str → Option Str
drift_message c peer = drift_if c.last peer

abbrev put_front : ℕ → Option Str → Option Str
put_front c none = none
put_front c (some s) = some (c ∷ s)

-- `&s[..n]`, which counts bytes; `none` is the panic of a cut within a character.
unfoldable pub slice_to : ℕ → Str → Option Str
slice_to ℕ.zero s = some []
slice_to (ℕ.suc n) [] = none
slice_to (ℕ.suc n) (c ∷ s) = elim (leb (length (utf8_char c)) (ℕ.suc n)) [
  | true ↦ put_front c (slice_to (ℕ.suc n - length (utf8_char c)) s)
  | false ↦ none
]

-- `16.min(observed.len())`
abbrev cut_at : ℕ → ℕ
cut_at n = if ltb n 16 then n else 16

abbrev cut_text : Str → Option Str → Str → Option Str
cut_text before none behind = none
cut_text before (some s) behind = some (before +++ s +++ behind)

unfoldable pub what_happened : Deviation → Option Str
unfolding slice_to
what_happened (unknown_certificate observed) =
    cut_text (codes "presented a certificate we do not know (")
      (slice_to (cut_at (length (utf8 observed))) observed) (codes "…)")
what_happened (invalid_signature d) = some (codes "sent an announcement that did not hold: " +++ d)
what_happened (abandoned_certificate observed) =
    cut_text (codes "presented a certificate it has abandoned (")
      (slice_to (cut_at (length (utf8 observed))) observed) (codes "…) — a rollback, or a replay")

-- `Deviation::message`; `none` is a panic.
unfoldable pub deviation_message : Deviation → Str → Option Str
unfolding what_happened
deviation_message d peer =
    cut_text (codes "TRUST FAILURE against " +++ peer +++ codes ": the peer ") (what_happened d) (
      codes ". Traffic to "
      +++ peer
      +++ codes
          " is stopped, and the connection now stands in mode 1 (pinning). An operator must approve the identity anew before it can be used. This is NOT retried automatically — a retry against an identity we cannot verify is just one more chance for whoever stands in the middle.")

-- `FallToMode1::at`
unfoldable pub at : Deviation → FallToMode1
at deviation = record { deviation = deviation }
