-- ===== src/Webserver/Requests/Ring.antt =====
-- The ring of the queue of webserver/server_thread.c as a list.
use native.Mathlib.Nat.{mod_self, mod-eq_of_lt}
use ece334operating_system.Prelude.{
  ℕ, zero, suc, ◌+◌, ◌-◌, ◌%◌, ◌<◌, ◌≤◌, ◌≡◌, ◌≢◌, refl, List, [], ◌∷◌, ◌++◌, ltb, ◌==◌,
  if◌then◌else◌, update, update_ne, arith, ap, ◌∙◌, inl, inr, Bool-cases, ==→eq, ==→ne,
}

-- an index below twice the size, brought back into the ring
abbrev pub wrap : ℕ → ℕ → ℕ
wrap m i = if ltb i m then i else i - m

-- The `n` connections of the ring from index `i` on.
abbrev pub window : (ℕ → ℕ) → ℕ → ℕ → ℕ → List ℕ
window rq m i zero = []
window rq m i (suc n) = rq i ∷ window rq m (wrap m (i + 1)) n

pub wrap-mod : (m i : ℕ) → i < m → (i + 1) % m ≡ wrap m (i + 1)
wrap-mod m i h = elim (Bool-cases (i + 1 == m)) [
  | inl end ↦ let e = ==→eq (i + 1) m end in ap (λ k. k % m) e ∙ mod_self m ∙ ground arith
  | inr more ↦ let ne = ==→ne (i + 1) m more in mod-eq_of_lt (omega arith) ∙ ground arith
]

pub window-snoc :
    (rq : ℕ → ℕ) (m i n : ℕ)
    → i < m
    → n < m
    → window rq m i (suc n) ≡ window rq m i n ++ (rq (wrap m (i + n)) ∷ [])
window-snoc rq m i zero h k = ap (λ j. rq j ∷ []) (ground arith)
window-snoc rq m i (suc n) h k =
    ap (λ l. rq i ∷ l)
      (window-snoc rq m (wrap m (i + 1)) n (ground arith) (omega arith)
        ∙ ap (λ j. window rq m (wrap m (i + 1)) n ++ (rq j ∷ [])) (ground arith))

-- A place at or after the end of the window may change.
pub window-update :
    (rq : ℕ → ℕ) (m i n k c : ℕ)
    → i < m
    → n ≤ k
    → k < m
    → window (update rq (wrap m (i + k)) c) m i n ≡ window rq m i n
window-update rq m i zero k c h a b = refl
window-update rq m i (suc n) zero c h a b = ground arith
window-update rq m i (suc n) (suc k) c h a b =
    let p : wrap m (i + suc k) ≡ wrap m (wrap m (i + 1) + k) = ground arith in
    let ne : wrap m (i + suc k) ≢ i = λ e. ground arith in
    ap (λ l. update rq (wrap m (i + suc k)) c i ∷ l)
      (ap (λ q. window (update rq q c) m (wrap m (i + 1)) n) p
        ∙ window-update rq m (wrap m (i + 1)) n k c (ground arith) (omega arith) (omega arith))
    ∙ ap (λ x. x ∷ window rq m (wrap m (i + 1)) n) (update_ne rq (wrap m (i + suc k)) i c ne)
