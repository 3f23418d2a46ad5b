-- ===== src/Tests/Lights.antt =====
-- Examples of the report: a service with a peer that announces a certificate, and one whose own has expired.
use net_tls.Prelude.{◌≡◌, ◌↔◌, refl, false, none, List, [], ◌∷◌, arith}
use net_tls.Prelude.Int.{pos, neg_part, ◌-ℤ◌}
use net_tls.Prelude.Text.{codes}
use net_tls.Host.{pkcs8}
use net_tls.Material.{TlsMaterial, files, is_valid_at}
use net_tls.Report.{fine, warn, alert, PeerReport, from_generations, is_broken, collect}
use net_tls.Report.Light.{collect-level, collect-expired_today}
use net_tls.Report.Signals.{has, IsRed, IsGreen}
use net_tls.Tests.Data.{portal, old_der, fp_of, waiting}

abbrev material : TlsMaterial
material = record {
  chain = old_der ∷ [];
  key = pkcs8 (3 ∷ []);
  origin = files;
  fingerprint = fp_of old_der;
  not_before = pos 0;
  not_after = pos 1000;
  sans = [];
  subject = codes "toy";
}

abbrev peers : List PeerReport
peers = from_generations portal waiting ∷ []

collect-level_example :
    (((collect (codes "1") (pos 5) (pos 5) material none peers).level ≡ alert)
      ↔ IsRed (pos 5) material none peers)
    × (((collect (codes "1") (pos 5) (pos 5) material none peers).level ≡ fine)
        ↔ IsGreen (pos 5) (pos 5) material none peers)
collect-level_example =
    collect-level (codes "1") (pos 5) (pos 5) material none peers (omega arith) (omega arith)
      (omega arith)

an_hour_over : neg_part (material.not_after -ℤ pos 4600) ≡ 3600
unfolding ◌-ℤ◌
an_hour_over = refl

none_broken : has is_broken peers ≡ false
unfolding from_generations
none_broken = refl

collect-expired_today_example :
    ((collect (codes "1") (pos 4600) (pos 4600) material none peers).level ≡ warn)
    × (is_valid_at material (pos 4600) ≡ false)
collect-expired_today_example =
    collect-expired_today (codes "1") (pos 4600) material none peers (omega arith) (omega arith)
      (omega arith) (omega (arith, an_hour_over)) none_broken refl refl
