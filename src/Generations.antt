-- ===== src/Generations.antt =====
-- generations.rs: the certificates of one peer, and the handshake that reads and moves them.
-- A `Trust` is a lock around a `Generations`; each of its methods holds the lock throughout, so a
-- method here is a step from one state to the next. A poisoned lock (a panic under it) is left out.
pub mod Handshake
pub mod Receive
pub mod Chain
pub mod Rotation
use Prim.Native.String.{String}
use net_tls.Prelude.{
  ℕ, ◌≡◌, refl, Bool, true, false, not, Option, none, some, List, [], ◌∷◌, any, if◌then◌else◌,
}
use net_tls.Prelude.Text.{Str, Bytes, same}
use net_tls.Error.{TlsError, Result, ok, err, params, ◌>>=◌, ◌>>◌, refuse}
use net_tls.External.{Libs}
use net_tls.Announcement.{Announcement, fingerprint_of, fingerprint_from_pem, der_from_pem, verify}

pub record Generation : Type 0 where
  pub der : Bytes
  pub fp : Str

pub data Received : Type 0 where
  stored known : Received

pub record Generations : Type 0 where
  pub previous : Option Generation
  pub current : Generation
  pub next : Option Generation

unfoldable pub from_approval : Generation → Generations
from_approval current = record { previous = none; current = current; next = none }

-- `g.is_some_and(|g| g.fingerprint() == fp)`
abbrev pub has_fingerprint : Option Generation → Str → Bool
has_fingerprint none fp = false
has_fingerprint (some g) fp = same g.fp fp

abbrev pub both_same : Option Generation → Option Generation → Bool
both_same (some f) n = has_fingerprint n f.fp
both_same none n = false

unfoldable pub restore : Option Generation → Generation → Option Generation → Result Generations
restore previous current next = do
  refuse (has_fingerprint previous current.fp)
      (params "restored state has previous equal to current")
  refuse (has_fingerprint next current.fp) (params "restored state has next equal to current")
  refuse (both_same previous next) (params "restored state has previous equal to next")
  ok (record { previous = previous; current = current; next = next })

-- The new state, and whether the peer's certificate was promoted.
unfoldable pub promote : Generations → Option Generation → Str → Generations × Bool
promote g none fp = (g, false)
promote g (some n) fp =
    if not (same n.fp fp)
    then (g, false)
    else (record { previous = some g.current; current = n; next = none }, true)

unfoldable pub observed : Generations → Str → Generations × Bool
unfolding promote
observed g fp = promote g g.next fp

unfoldable pub accepted_in_handshake : Generations → List Generation
accepted_in_handshake g = elim g.next [ none ↦ g.current ∷ [] | some n ↦ g.current ∷ n ∷ [] ]

abbrev pub for_signing : Generations → Option Generation × Generation
for_signing g = (g.previous, g.current)

unfoldable pub is_bootstrap : Generations → Bool
is_bootstrap g = elim g.previous [ none ↦ true | some p ↦ false ]

-- `o.as_ref().map(|g| g.der())`
abbrev pub der_if : Option Generation → Option Bytes
der_if none = none
der_if (some g) = some g.der

module _ (l : Libs) where
  unfoldable pub from_der : Bytes → Generation
  from_der der = record { der = der; fp = fingerprint_of l der }

  unfoldable pub from_pem : Str → Result Generation
  from_pem pem = do
    fp ← fingerprint_from_pem l pem
    der ← der_from_pem l pem
    ok (record { der = der; fp = fp })

  -- The part of `receive` behind the test for an announcement that is known already.
  unfoldable pub learn : Generations → Announcement → Result Generation
  learn g k = do verify l k (der_if g.previous) g.current.der; from_pem k.new_cert_pem

  abbrev pub keep : Generations → Result Generation → Generations × Result Received
  keep g (ok n) = (record g { next = some n }, ok stored)
  keep g (err e) = (g, err e)

  unfoldable pub receive : Generations → Announcement → Generations × Result Received
  unfolding learn
  receive g k = if has_fingerprint g.next k.new_fp then (g, ok known) else keep g (learn g k)

  -- `GenerationVerifier::verify_server_cert`: the new state, and whether the handshake goes on.
  unfoldable pub verify_server_cert : Generations → Bytes → Generations × Bool
  unfolding accepted_in_handshake observed
  verify_server_cert g end_entity =
      let fp : Str = fingerprint_of l end_entity in
      if not (any (λ (x : Generation). same x.fp fp) (accepted_in_handshake g))
      then (g, false)
      else ((observed g fp).0, true)
