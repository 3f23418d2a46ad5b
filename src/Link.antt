-- ===== src/Link.antt =====
-- An announcer and one of its peers, on both sides of a connection: announcer.rs, generations.rs and
-- announcement.rs together. The announcer is a `World`, the peer what it holds of the announcer and the
-- receipts that it has written; the other peers are only seen through their receipts.
pub mod Holding
pub mod Promise
pub mod Receipts
pub mod Prepares
pub mod Switching
pub mod Accepted
use net_tls.Prelude.{ℕ, ◌≡◌, Bool, true, false, Option, none, some, List, ◌∷◌}
use net_tls.Prelude.Int.{ℤ}
use net_tls.Prelude.Text.{Str, same}
use net_tls.Error.{Result, ok}
use net_tls.Announcement.{Announcement}
use net_tls.Generations.{Generations, Received, receive, verify_server_cert}
use net_tls.Host.{Host}
use net_tls.Material.{leaf}
use net_tls.Schedule.Names.{mem}
use net_tls.Store.Pending.{Pending}
use net_tls.Announcer.{World, Config, prepare, acked_by, roll_if_ready_gated}

pub record Link : Type 0 where
  pub world : World
  pub peer : Generations
  -- the fingerprints that the peer's receipts name
  pub receipts : List Str

-- A fresh certificate has a fingerprint of its own.
abbrev pub IsFresh : Link → Announcement → Type 0
IsFresh s k =
    (same k.new_fp s.world.serving.fingerprint ≡ false) × (mem k.new_fp s.receipts ≡ false)

module _ (h : Host) (works : ℕ → Bool) (c : Config) (name : Str) where
  -- What happens between the two, in any order and as often as it likes: calls of the announcer that go
  -- well, the peer reading the announcement that is out, receipts that arrive (an old one may come again,
  -- but counts only for the announcement that it names), and connections of the peer.
  pub data Step : Link → Link → Type 0 where
    prepares :
        (s : Link) (now : ℤ) (k : Announcement) (w : World)
        → prepare h works c now s.world ≡ (ok k, w)
        → (s.world.pending ≡ none → IsFresh s k)
        → Step s (record s { world = w })
    receives :
        (s : Link) (p : Pending) (r : Received) (g : Generations)
        → s.world.pending ≡ some p
        → receive h.libs s.peer p.announcement ≡ (g, ok r)
        → Step s (record s { peer = g; receipts = p.announcement.new_fp ∷ s.receipts })
    acks :
        (s : Link) (p : Pending)
        → s.world.pending ≡ some p
        → mem p.announcement.new_fp s.receipts ≡ true
        → Step s (record s { world = acked_by name s.world })
    others :
        (s : Link) (other : Str)
        → same name other ≡ false
        → Step s (record s { world = acked_by other s.world })
    rolls :
        (s : Link) (now : ℤ) (safe_now : Bool) (r : Option Str) (w : World)
        → roll_if_ready_gated h works c now safe_now s.world ≡ (ok r, w)
        → Step s (record s { world = w })
    connects :
        (s : Link)
        → Step s (record s {
          peer = (verify_server_cert h.libs s.peer (leaf s.world.serving.certified.0)).0;
        })

  pub data Reach (s : Link) : Link → Type 0 where
    here : Reach s s
    next : {t u : Link} → Reach s t → Step t u → Reach s u
