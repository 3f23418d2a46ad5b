-- ===== src/Announcer/Views.antt =====
-- announcer.rs: what an `Announcer` tells of itself; and the answer to `GET /v1/tls/identity` that
-- announcement.rs builds of it. `should_announce`, `status` and `pending` have longer names here.
use net_tls.Prelude.{Bool, Option}
use mathlib.Core.Option
use net_tls.Prelude.Int.{ℤ}
use net_tls.Prelude.Text.{Str}
use net_tls.Error.{Result, ok, ◌>>=◌}
use net_tls.Announcement.{Announcement, AnnouncementJson, to_json}
use net_tls.External.{Libs}
use net_tls.Host.{Host}
use net_tls.Material.{TlsMaterial}
use net_tls.Modes.{Mode}
use net_tls.Schedule
use net_tls.Schedule.Retry
use net_tls.Schedule.Retry.{Status}
use net_tls.Store.Source.{certified_key}
use net_tls.Store.Pending.{Pending}
use net_tls.Announcer.{World, Current}

unfoldable pub should_announce_now : World → ℤ → Bool
should_announce_now w now = Schedule.should_announce w.schedule now

unfoldable pub status_now : World → ℤ → ℤ → Status
status_now w now expires = Retry.status w.schedule now expires

unfoldable pub pending_announcement : World → Option Announcement
pending_announcement w = Option.map (λ (x : Pending). x.announcement) w.pending

-- `RotatingResolver::new` and `fingerprint_sha256`
unfoldable pub new_resolver : Host → TlsMaterial → Result Current
new_resolver h material = do
  key ← certified_key h material
  ok (record { certified = key; fingerprint = material.fingerprint })

unfoldable pub fingerprint_sha256 : World → Str
fingerprint_sha256 w = w.serving.fingerprint

pub record IdentityJson : Type 0 where
  pub fingerprint : Str
  pub cert_pem : Str
  pub not_after : Option Str
  pub mode : Mode
  pub sent_at : ℤ
  pub announcement : Option AnnouncementJson

unfoldable pub identity :
    Libs → Str → Str → Option Str → Mode → ℤ → Option Announcement → IdentityJson
identity l fingerprint cert_pem not_after mode sent_at announcement = record {
  fingerprint = fingerprint;
  cert_pem = cert_pem;
  not_after = not_after;
  mode = mode;
  sent_at = sent_at;
  announcement = Option.map (to_json l) announcement;
}
