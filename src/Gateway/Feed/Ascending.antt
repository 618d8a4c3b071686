-- ===== src/Gateway/Feed/Ascending.antt =====
-- Lists of ops that go strictly up by LSN.
use prometheus_entity_sync.Base.{
  All, All-Has, Has, List, [], ◌∷◌, ◌++◌, ◌<◌, ◌≡◌, refl, sym, ap, ◌∙◌, inl, inr, arith,
}
use prometheus_entity_sync.Core.{BucketOp}
use prometheus_entity_sync.Oplog.Store.Scan.{IsAscendingLsn}

abbrev Below : BucketOp → BucketOp → Type 0
Below o p = o.lsn < p.lsn

-- The first of two ascending lists with the same members is the same.
same_first :
    (x y : BucketOp) (xs ys : List BucketOp)
    → All (Below x) xs
    → All (Below y) ys
    → Has x (y ∷ ys)
    → Has y (x ∷ xs)
    → x ≡ y
same_first x y xs ys hx hy (inl e) k = sym e
same_first x y xs ys hx hy (inr h) (inl e) = e
same_first x y xs ys hx hy (inr h) (inr k) =
    let up : y.lsn < x.lsn = All-Has (Below y) x ys hy h in
    let down : x.lsn < y.lsn = All-Has (Below x) y xs hx k in absurd (omega (arith, up, down))

later_Has :
    (x y o : BucketOp) (xs ys : List BucketOp)
    → x ≡ y
    → All (Below x) xs
    → Has o xs
    → Has o (y ∷ ys)
    → Has o ys
later_Has x y o xs ys same hx h (inr k) = k
later_Has x y o xs ys same hx h (inl e) =
    let up : x.lsn < o.lsn = All-Has (Below x) o xs hx h in
    let at : x.lsn ≡ o.lsn = ap (λ (p : BucketOp). p.lsn) (same ∙ e) in
    absurd (omega (arith, up, at))

pub IsAscendingLsn-unique :
    (xs ys : List BucketOp)
    → IsAscendingLsn xs
    → IsAscendingLsn ys
    → ((o : BucketOp) → Has o xs → Has o ys)
    → ((o : BucketOp) → Has o ys → Has o xs)
    → xs ≡ ys
IsAscendingLsn-unique [] [] hx hy f g = refl
IsAscendingLsn-unique [] (y ∷ ys) hx hy f g = absurd (g y (inl refl))
IsAscendingLsn-unique (x ∷ xs) [] hx hy f g = absurd (f x (inl refl))
IsAscendingLsn-unique (x ∷ xs) (y ∷ ys) hx hy f g =
    let same = same_first x y xs ys hx.0 hy.0 (f x (inl refl)) (g y (inl refl)) in
    let rest =
      IsAscendingLsn-unique xs ys hx.1 hy.1 (λ o h. later_Has x y o xs ys same hx.0 h (f o (inr h)))
        (λ o h. later_Has y x o ys xs (sym same) hy.0 h (g o (inr h))) in
    λ i. same i ∷ rest i

All-snoc :
    (P : BucketOp → Type 0) (xs : List BucketOp) (o : BucketOp)
    → All P xs
    → P o
    → All P (xs ++ o ∷ [])
All-snoc P [] o h p = (p, tt)
All-snoc P (x ∷ xs) o h p = (h.0, All-snoc P xs o h.1 p)

pub IsAscendingLsn-snoc :
    (xs : List BucketOp) (o : BucketOp)
    → IsAscendingLsn xs
    → All (λ p. p.lsn < o.lsn) xs
    → IsAscendingLsn (xs ++ o ∷ [])
IsAscendingLsn-snoc [] o h k = (tt, tt)
IsAscendingLsn-snoc (x ∷ xs) o h k =
    (All-snoc (Below x) xs o h.0 k.0, IsAscendingLsn-snoc xs o h.1 k.1)
