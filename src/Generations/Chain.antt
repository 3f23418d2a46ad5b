-- ===== src/Generations/Chain.antt =====
-- The states a peer's certificates can reach from an approval, through announcements and handshakes.
use net_tls.Prelude.{
  ◌≡◌, inl, inr, refl, sym, subst, ap, ◌∙◌, Option, none, some, List, [], ◌∷◌, Bool-cases,
}
use net_tls.Prelude.Text.{Bytes, utf8}
use net_tls.Error.{Result, ok, err, ok-inj, >>=-eq-ok, >>-eq-ok}
use net_tls.External.{Libs}
use net_tls.Announcement.{
  Announcement, fingerprint_of, fingerprint_from_pem, der_from_pem, only_cert, verify,
}
use net_tls.Announcement.Verify.{Holds}
use net_tls.Generations.{
  Generation, Generations, has_fingerprint, from_approval, from_pem, der_if, learn, keep, receive,
  verify_server_cert,
}
use net_tls.Generations.Handshake.{handshake_state}
use net_tls.Generations.Receive.{learn-Holds}

second-only :
    (d e : Bytes) (certs : List (Option Bytes))
    → only_cert (some d) certs ≡ ok e
    → (certs ≡ []) × (d ≡ e)
unfolding only_cert
second-only d e [] h = (refl, ok-inj h)
second-only d e (none ∷ certs) h = cc
second-only d e (some x ∷ certs) h = cc

only_cert-one :
    (e : Bytes) (certs : List (Option Bytes)) → only_cert none certs ≡ ok e → certs ≡ some e ∷ []
unfolding only_cert
only_cert-one e [] h = cc
only_cert-one e (none ∷ certs) h = cc
only_cert-one e (some d ∷ certs) h =
    let (rest, same_der) = second-only d e certs h in rw (rest, same_der) refl

module _ (l : Libs) where
  -- One call on the state: an announcement is received, or a certificate is seen in a handshake.
  pub data Step : Generations → Generations → Type 0 where
    receives : (g : Generations) → (k : Announcement) → Step g (receive l g k).0
    sees : (g : Generations) → (cert : Bytes) → Step g (verify_server_cert l g cert).0

  -- The states reached from one with the anchor alone.
  pub data Reach (anchor : Generation) : Generations → Type 0 where
    approved : Reach anchor (from_approval anchor)
    steps : {g h : Generations} → Reach anchor g → Step g h → Reach anchor h

  -- The certificate that an announcement carries: the only one in its text, under its own fingerprint.
  pub record Carries (a : Announcement) (n : Generation) : Type 0 where
    pub one : l.pem_slice_iter (utf8 a.new_cert_pem) ≡ some n.der ∷ []
    pub named : n.fp ≡ fingerprint_of l n.der

  -- The previous and the current certificate at the end of a chain of announcements from the anchor. Each
  -- announcement holds against the two before it, and carries the next one.
  pub data Chained (anchor : Generation) : Option Generation → Generation → Type 0 where
    is_anchor : Chained anchor none anchor
    follows :
        {p : Option Generation} {c n : Generation} (a : Announcement)
        → Chained anchor p c
        → Holds l a (der_if p) c.der
        → Carries a n
        → Chained anchor (some c) n

  -- What waits to be seen is carried by an announcement that holds against the two.
  abbrev pub IsAnnounced : Option Generation → Generation → Option Generation → Type 0
  IsAnnounced p c none = Unit
  IsAnnounced p c (some n) = (a : Announcement) × Holds l a (der_if p) c.der × Carries a n

  pub record AllTrusted (anchor : Generation) (g : Generations) : Type 0 where
    pub chained : Chained anchor g.previous g.current
    pub next : IsAnnounced g.previous g.current g.next

  learn-Carries :
      (g : Generations) (k : Announcement) (n : Generation) → learn l g k ≡ ok n → Carries k n
  unfolding learn from_pem fingerprint_from_pem der_from_pem
  learn-Carries g k n e =
      let (h₁, k₁) = >>-eq-ok (verify l k (der_if g.previous) g.current.der) _ e in
      let (fp, h₂, k₂) = >>=-eq-ok (fingerprint_from_pem l k.new_cert_pem) _ k₁ in
      let (der, h₃, k₃) = >>=-eq-ok (der_from_pem l k.new_cert_pem) _ k₂ in
      let (der', h₄, k₄) = >>=-eq-ok (der_from_pem l k.new_cert_pem) _ h₂ in
      let same_n : record { der = der; fp = fp } ≡ n = ok-inj k₃ in
      let same_der : der' ≡ der = ok-inj (sym h₄ ∙ h₃) in
      subst (Carries k) same_n (record {
        one = only_cert-one der (l.pem_slice_iter (utf8 k.new_cert_pem)) h₃;
        named = sym (ok-inj k₄) ∙ ap (fingerprint_of l) same_der;
      })

  received-AllTrusted :
      (anchor : Generation) (g : Generations) (k : Announcement)
      → AllTrusted anchor g
      → AllTrusted anchor (receive l g k).0
  unfolding receive
  received-AllTrusted anchor g k t = elim (Bool-cases (has_fingerprint g.next k.new_fp)) [
    | inl e ↦ rw e t
    | inr e ↦ rw e (split (learn l g k) refl)
  ]
    where
      split : (r : Result Generation) → learn l g k ≡ r → AllTrusted anchor (keep l g r).0
      split (err x) e = t
      split (ok n) e = record {
        chained = t.chained;
        next = (k, learn-Holds l g k n e, learn-Carries g k n e);
      }

  Step-AllTrusted :
      (anchor : Generation) {g h : Generations}
      → AllTrusted anchor g
      → Step g h
      → AllTrusted anchor h
  Step-AllTrusted anchor t (receives g k) = received-AllTrusted anchor g k t
  Step-AllTrusted anchor t (sees g cert) = elim (handshake_state l g cert) [
    | inl (n, e, _, r) ↦
        let (a, holds, carried) = subst (IsAnnounced g.previous g.current) e t.next in
        rw r (record { chained = follows a t.chained holds carried; next = tt })
    | inr (_, r) ↦ rw r t
  ]

  -- In every state that announcements and handshakes reach from an approval, the previous and the current
  -- certificate are the end of a chain of announcements from the approved one: each holds against the
  -- previous and the current certificate before it, with the signatures of both once there is a
  -- previous one, and carries, as the only certificate in its text, the one behind it. The
  -- certificate that waits to be seen is carried by an announcement that holds against these two.
  pub Reach-AllTrusted :
      (anchor : Generation) {g : Generations} → Reach anchor g → AllTrusted anchor g
  unfolding from_approval
  Reach-AllTrusted anchor approved = record { chained = is_anchor; next = tt }
  Reach-AllTrusted anchor (steps r s) = Step-AllTrusted anchor (Reach-AllTrusted anchor r) s
