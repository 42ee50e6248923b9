-- ===== src/Game/Selector/Buckets.antt =====
-- Laws of the buckets and their shuffle (api/internal/game/selector.go).
use mathlib.Core.List.{
  Mem-prop, Mem, Nodup, Perm, Nodup-cons, mem-cons, not-mem-nil, mem-cons_self, mem-cons_of_mem,
}
use mathlib.Core.List.Perm
use mathlib.Core.Logic.{∨₁_prop, ◌∨₁◌}
use mathlib.Core.Logic.Or
use mathlib.Core.HLevel.{×_prop}
use native.Mathlib.Nat.{ℕ_set}
use jejak_inderasakti_be.Shared.{
  ℕ, zero, suc, ◌≡◌, refl, sym, subst, ap, String, ◌&&◌, List, [], ◌∷◌, some, ◌==◌, get_elem?,
  arith, inl, inr, Bool-cases,
}
use jejak_inderasakti_be.Game.Selector.{QuestionRef, bucket, shuffled_buckets}

abbrev pub ids_of : List QuestionRef → List String
ids_of [] = []
ids_of (q ∷ qs) = q.id ∷ ids_of qs

get_elem?-Mem : (xs : List String) (i : ℕ) (x : String) → get_elem? xs i ≡ some x → Mem x xs
get_elem?-Mem [] i x h = cc
get_elem?-Mem (y ∷ xs) zero x h = subst (λ z. Mem z (y ∷ xs)) (ground arith) (mem-cons_self)
get_elem?-Mem (y ∷ xs) (suc i) x h = mem-cons_of_mem y (get_elem?-Mem xs i x h)

get_elem?-Nodup :
    (xs : List String) (i j : ℕ) (x : String)
    → Nodup xs
    → get_elem? xs i ≡ some x
    → get_elem? xs j ≡ some x
    → i ≡ j
get_elem?-Nodup [] i j x n h k = cc
get_elem?-Nodup (y ∷ xs) zero zero x n h k = refl
get_elem?-Nodup (y ∷ xs) zero (suc j) x n h k =
    let same : x ≡ y = ground arith in
    absurd ((Nodup-cons.0 n).0 (subst (λ z. Mem z xs) same (get_elem?-Mem xs j x k)))
get_elem?-Nodup (y ∷ xs) (suc i) zero x n h k =
    let same : x ≡ y = ground arith in
    absurd ((Nodup-cons.0 n).0 (subst (λ z. Mem z xs) same (get_elem?-Mem xs i x h)))
get_elem?-Nodup (y ∷ xs) (suc i) (suc j) x n h k =
    ap suc (get_elem?-Nodup xs i j x (Nodup-cons.0 n).1 h k)

mem-bucket :
    (s l : ℕ) (id : String) (q : QuestionRef) (qs : List QuestionRef)
    → Mem id (bucket s l (q ∷ qs))
    → ((id ≡ q.id) × (q.site ≡ s) × (q.level ≡ l)) ∨₁ Mem id (bucket s l qs)
unfolding bucket
mem-bucket s l id q qs m = elim (Bool-cases (q.site == s && q.level == l)) [
  | inl e ↦
      let m' : Mem id (q.id ∷ bucket s l qs) = rw e at m in
      Or.elim ∨₁_prop (mem-cons.0 m') (λ h. Or.inl (h, ground arith, ground arith)) (λ t. Or.inr t)
  | inr e ↦ Or.inr (rw e at m)
]

mem-ids_of :
    (s l : ℕ) (id : String) (pool : List QuestionRef)
    → Mem id (bucket s l pool)
    → Mem id (ids_of pool)
unfolding bucket
mem-ids_of s l id [] m = m
mem-ids_of s l id (q ∷ qs) m =
    Or.elim Mem-prop (mem-bucket s l id q qs m)
      (λ h. subst (λ z. Mem z (q.id ∷ ids_of qs)) (sym h.0) mem-cons_self)
      (λ t. mem-cons_of_mem q.id (mem-ids_of s l id qs t))

bucket-Nodup : (s l : ℕ) (pool : List QuestionRef) → Nodup (ids_of pool) → Nodup (bucket s l pool)
unfolding bucket
bucket-Nodup s l [] n = n
bucket-Nodup s l (q ∷ qs) n = elim (Bool-cases (q.site == s && q.level == l)) [
  | inl e ↦ rw e (
      Nodup-cons.1 (
        (λ m. (Nodup-cons.0 n).0 (mem-ids_of s l q.id qs m)),
        bucket-Nodup s l qs (Nodup-cons.0 n).1,
      ))
  | inr e ↦ rw e (bucket-Nodup s l qs (Nodup-cons.0 n).1)
]

-- With distinct ids, an id is in the bucket of one cell only.
bucket-cell :
    (s l s' l' : ℕ) (id : String) (pool : List QuestionRef)
    → Nodup (ids_of pool)
    → Mem id (bucket s l pool)
    → Mem id (bucket s' l' pool)
    → (s ≡ s') × (l ≡ l')
bucket-cell s l s' l' id [] n m k = absurd (not-mem-nil (mem-ids_of s l id [] m))
bucket-cell s l s' l' id (q ∷ qs) n m k =
    Or.elim cell_prop (mem-bucket s l id q qs m)
      (λ h.
        Or.elim cell_prop (mem-bucket s' l' id q qs k) (λ h'. omega arith)
          (λ t'. absurd (fresh h.0 (mem-ids_of s' l' id qs t'))))
      (λ t.
        Or.elim cell_prop (mem-bucket s' l' id q qs k)
          (λ h'. absurd (fresh h'.0 (mem-ids_of s l id qs t)))
          (λ t'. bucket-cell s l s' l' id qs (Nodup-cons.0 n).1 t t'))
  where
    cell_prop : IsProp ((s ≡ s') × (l ≡ l'))
    cell_prop = ×_prop (ℕ_set s s') (ℕ_set l l')

    fresh : id ≡ q.id → ¬ Mem id (ids_of qs)
    fresh e m = (Nodup-cons.0 n).0 (subst (λ z. Mem z (ids_of qs)) e m)

-- Shuffling keeps each id in one place of one bucket.
pub shuffled_buckets-IsPlaced :
    (shuffle : ℕ → ℕ → List String → List String) (pool : List QuestionRef)
    → ((s l : ℕ) (xs : List String) → Perm xs (shuffle s l xs))
    → Nodup (ids_of pool)
    → (s l i s' l' i' : ℕ) (id : String) → get_elem? (shuffled_buckets shuffle pool s l) i ≡ some id
    → get_elem? (shuffled_buckets shuffle pool s' l') i' ≡ some id
    → (s ≡ s') × (l ≡ l') × (i ≡ i')
unfolding shuffled_buckets
shuffled_buckets-IsPlaced shuffle pool perm n s l i s' l' i' id g g' =
    let (es, el) =
      bucket-cell s l s' l' id pool n
        ((Perm.mem_iff (perm s l (bucket s l pool))).1 (get_elem?-Mem _ i id g))
        ((Perm.mem_iff (perm s' l' (bucket s' l' pool))).1 (get_elem?-Mem _ i' id g')) in
    (
      es,
      el,
      get_elem?-Nodup (shuffle s l (bucket s l pool)) i i' id
          (Perm.nodup (perm s l (bucket s l pool)) (bucket-Nodup s l pool n)) g (rw (es, el) g'),
    )
