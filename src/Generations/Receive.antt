-- ===== src/Generations/Receive.antt =====
-- What `Generations::receive` stores, and on what conditions.
use net_tls.Prelude.{
  ◌≡◌, ◌≢◌, ◌↔◌, ◌⊎◌, inl, inr, refl, sym, ◌∙◌, subst, Bool, true, false, Option, none, some, arith,
  Bool-cases,
}
use net_tls.Prelude.Text.{Str, same, same_iff, same→eq}
use net_tls.Error.{Result, ok, err, TlsError, ok-inj, >>=-eq-ok, >>-eq-ok}
use net_tls.External.{Libs}
use net_tls.Announcement.{Announcement, fingerprint_of, fingerprint_from_pem, der_from_pem, verify}
use net_tls.Announcement.Verify.{Holds, verify_iff}
use net_tls.Generations.{
  Generation, Generations, stored, known, has_fingerprint, both_same, der_if, from_pem, learn,
  receive, restore,
}
use net_tls.Generations.Handshake.{HasFingerprint, IsDistinct}

-- `restore` takes back exactly the states whose three certificates differ, unchanged.
pub restore_iff :
    (previous : Option Generation) (current : Generation) (next : Option Generation)
    (g : Generations)
    → (restore previous current next ≡ ok g)
      ↔ (IsDistinct g × (g ≡ record { previous = previous; current = current; next = next }))
unfolding restore
restore_iff previous current next g = (to, from)
  where
    to :
        restore previous current next ≡ ok g
        → IsDistinct g × (g ≡ record { previous = previous; current = current; next = next })
    to h =
        let e : g ≡ record { previous = previous; current = current; next = next } = ground arith in
        (
          subst IsDistinct (sym e) (record {
            previous_current = ground arith;
            next_current = ground arith;
            previous_next = ground arith;
          }),
          e,
        )

    from :
        IsDistinct g × (g ≡ record { previous = previous; current = current; next = next })
        → restore previous current next ≡ ok g
    from (d, e) =
        let d' : IsDistinct (record { previous = previous; current = current; next = next }) =
          subst IsDistinct e d in
        rw (e, d'.previous_current, d'.next_current, d'.previous_next)

module _ (l : Libs) where
  -- A certificate with its own fingerprint.
  abbrev pub IsGeneration : Generation → Type 0
  IsGeneration n = n.fp ≡ fingerprint_of l n.der

  from_pem-IsGeneration :
      (pem : Str) (fp : Str)
      → fingerprint_from_pem l pem ≡ ok fp
      → (n : Generation) × (from_pem l pem ≡ ok n) × (n.fp ≡ fp) × IsGeneration n
  unfolding from_pem fingerprint_from_pem
  from_pem-IsGeneration pem fp h =
      let (der, h₁, k₁) = >>=-eq-ok (der_from_pem l pem) _ h in
      (record { der = der; fp = fp }, rw h₁ (ground arith), refl, sym (ok-inj k₁))

  learn-ok :
      (g : Generations) (k : Announcement)
      → Holds l k (der_if g.previous) g.current.der
      → (n : Generation) × (learn l g k ≡ ok n) × (n.fp ≡ k.new_fp) × IsGeneration n
  unfolding learn
  learn-ok g k h =
      let (n, e, fp, own) = from_pem-IsGeneration k.new_cert_pem k.new_fp h.hashes in
      (n, rw ((verify_iff l k (der_if g.previous) g.current.der).1 h) e, fp, own)

  pub learn-Holds :
      (g : Generations) (k : Announcement) (n : Generation)
      → learn l g k ≡ ok n
      → Holds l k (der_if g.previous) g.current.der
  unfolding learn
  learn-Holds g k n e =
      let (h₁, k₁) = >>-eq-ok (verify l k (der_if g.previous) g.current.der) _ e in
      (verify_iff l k (der_if g.previous) g.current.der).0 h₁

  -- The three outcomes of an announcement. It is known already: nothing is checked and nothing
  -- changes. It holds against the receiver's own certificates: its certificate becomes `next`, with
  -- the fingerprint that was announced. Anything else is an error, and nothing changes.
  pub receive_cases :
      (g : Generations) (k : Announcement)
      → (HasFingerprint g.next k.new_fp × (receive l g k ≡ (g, ok known)))
        ⊎ ((HasFingerprint g.next k.new_fp → ⊥)
            × Holds l k (der_if g.previous) g.current.der
            × ((n : Generation) × (n.fp ≡ k.new_fp)
                × IsGeneration n
                × (receive l g k ≡ (record g { next = some n }, ok stored))))
        ⊎ ((HasFingerprint g.next k.new_fp → ⊥)
            × (Holds l k (der_if g.previous) g.current.der → ⊥)
            × ((e : TlsError) × (receive l g k ≡ (g, err e))))
  receive_cases g k = elim (Bool-cases (has_fingerprint g.next k.new_fp)) [
    | inl p ↦ inl (is_known g.next p, unfold receive in rw p)
    | inr p ↦ elim (cases (learn l g k)) [
      | inl (n, e) ↦
          let holds = learn-Holds g k n e in
          let (m, e', fp, own) = learn-ok g k holds in
          inr (inl (not_known g.next p, holds, (m, fp, own, unfold receive in rw (p, e'))))
      | inr (x, e) ↦ inr (
          inr (
            not_known g.next p,
            λ holds. failed x e (learn-ok g k holds).1,
            (x, unfold receive in rw (p, e)),
          ))
    ]
  ]
    where
      is_known :
          (o : Option Generation) → has_fingerprint o k.new_fp ≡ true → HasFingerprint o k.new_fp
      is_known none h = cc
      is_known (some n) h = same→eq n.fp k.new_fp h

      not_known :
          (o : Option Generation)
          → has_fingerprint o k.new_fp ≡ false
          → HasFingerprint o k.new_fp
          → ⊥
      not_known none h = λ z. z
      not_known (some n) h = λ z. ground (arith, (same_iff n.fp k.new_fp).1 z)

      cases :
          (r : Result Generation) → ((n : Generation) × (r ≡ ok n)) ⊎ ((x : TlsError) × (r ≡ err x))
      cases (ok n) = inl (n, refl)
      cases (err x) = inr (x, refl)

      failed : (x : TlsError) {n : Generation} → learn l g k ≡ err x → learn l g k ≡ ok n → ⊥
      failed x p q = cc

  -- Everything in the state is a certificate with its own fingerprint.
  abbrev pub AreGenerations : Option Generation → Type 0
  AreGenerations none = Unit
  AreGenerations (some n) = IsGeneration n

  -- After an announcement is stored, the state is one that `restore` takes back exactly if it was one
  -- before (leaving the old `next` aside) and the announced certificate is neither the current nor
  -- the previous one. `receive` does not ask for the latter.
  pub stored_restorable_iff :
      (g : Generations) (k : Announcement) (n : Generation)
      → has_fingerprint g.previous g.current.fp ≡ false
      → n.fp ≡ k.new_fp
      → receive l g k ≡ (record g { next = some n }, ok stored)
      → (restore (receive l g k).0.previous (receive l g k).0.current (receive l g k).0.next
          ≡ ok (receive l g k).0)
        ↔ ((g.current.fp ≢ k.new_fp) × (HasFingerprint g.previous k.new_fp → ⊥))
  stored_restorable_iff g k n d fp h = rw h (to, from)
    where
      fresh : Generations
      fresh = record g { next = some n }

      to :
          restore g.previous g.current (some n) ≡ ok fresh
          → (g.current.fp ≢ k.new_fp) × (HasFingerprint g.previous k.new_fp → ⊥)
      to e =
          let i = ((restore_iff g.previous g.current (some n) fresh).0 e).0 in
          (
            λ z. ground (arith, i.next_current, (same_iff n.fp g.current.fp).1 (fp ∙ sym z)),
            λ z. not_previous g.previous i.previous_next z,
          )
        where
          not_previous :
              (p : Option Generation) → both_same p (some n) ≡ false → HasFingerprint p k.new_fp → ⊥
          not_previous none q z = z
          not_previous (some p) q z = ground (arith, (same_iff n.fp p.fp).1 (fp ∙ sym z))

      from :
          (g.current.fp ≢ k.new_fp) × (HasFingerprint g.previous k.new_fp → ⊥)
          → restore g.previous g.current (some n) ≡ ok fresh
      from (ne, np) = (restore_iff g.previous g.current (some n) fresh).1 (
        record {
          previous_current = d;
          next_current = ne_current (same n.fp g.current.fp) refl;
          previous_next = ne_previous g.previous np;
        },
        refl,
      )
        where
          ne_current : (b : Bool) → same n.fp g.current.fp ≡ b → same n.fp g.current.fp ≡ false
          ne_current true e = absurd (ne (sym (same→eq n.fp g.current.fp e) ∙ fp))
          ne_current false e = e

          ne_previous :
              (p : Option Generation)
              → (HasFingerprint p k.new_fp → ⊥)
              → both_same p (some n) ≡ false
          ne_previous none np = refl
          ne_previous (some p) np = elim (Bool-cases (same n.fp p.fp)) [
            | inl e ↦ absurd (np (sym (same→eq n.fp p.fp e) ∙ fp))
            | inr e ↦ e
          ]
