-- ===== src/Transaction/Released.antt =====
-- The owners and the releases of an interface, through the operations of a program.
use fbpp.Prelude.{
  ℕ, zero, suc, ◌+◌, ◌≤◌, ◌≡◌, refl, ◌∙◌, List, [], ◌∷◌, some, ltb, ◌==◌, if◌then◌else◌, get_elem?,
  set, arith, Bool-cases, Option-cases, inl, inr, All, get_elem?-set_ne,
}
use fbpp.Transaction.{Transaction, empty, perform, drop_interface}
use fbpp.Transaction.World.{
  World, Call, starts, performs, destroys, moves, assigns, remove_at, step, run, begin,
}
use fbpp.Transaction.Owned.{
  holds, owners, releases, IsWhole, Clean, owners-set, owners-remove_at, releases-append,
  perform-balance, perform-IsWhole, perform-Clean, drop_interface-balance, drop_interface-Clean,
}

All-get :
    (ts : List Transaction) (i : ℕ) (t : Transaction)
    → get_elem? ts i ≡ some t
    → All IsWhole ts
    → IsWhole t
All-get [] i t e a = absurd (cc)
All-get (s ∷ ts) zero t e a = let same : s ≡ t = cc in rw (← same) a.0
All-get (s ∷ ts) (suc i) t e a = All-get ts i t e a.1

All-set :
    (ts : List Transaction) (i : ℕ) (t : Transaction)
    → IsWhole t
    → All IsWhole ts
    → All IsWhole (set ts i t)
All-set [] i t h a = tt
All-set (s ∷ ts) zero t h a = (h, a.1)
All-set (s ∷ ts) (suc i) t h a = (a.0, All-set ts i t h a.1)

All-remove_at : (ts : List Transaction) (i : ℕ) → All IsWhole ts → All IsWhole (remove_at i ts)
unfolding remove_at
All-remove_at [] i a = tt
All-remove_at (s ∷ ts) zero a = a.1
All-remove_at (s ∷ ts) (suc i) a = (a.0, All-remove_at ts i a.1)

-- Owners and releases of an interface are one together if the engine handed it out, and none if not.
pub record IsOwned (w : World) : Type 0 where
  pub whole : All IsWhole w.objects
  pub balance : (h : ℕ) → owners h w.objects + releases h w.log ≡ (if ltb h w.next then 1 else 0)
  pub clean : Clean w.log

owners-get :
    (h i : ℕ) (ts : List Transaction) (t : Transaction)
    → get_elem? ts i ≡ some t
    → holds h t.handle ≤ owners h ts
owners-get h i ts t e = omega (arith, owners-remove_at h i ts t e)

-- An interface that an object holds is not released yet.
fresh :
    (w : World) (i : ℕ) (t : Transaction) (k : ℕ)
    → IsOwned w
    → get_elem? w.objects i ≡ some t
    → t.handle ≡ some k
    → releases k w.log ≡ 0
fresh w i t k v e f =
    let one : holds k t.handle ≡ 1 = rw f (ground arith) in
    ground (arith, v.balance k, owners-get k i w.objects t e)

step-IsOwned : (w : World) (c : Call) → IsOwned w → IsOwned (step w c)
unfolding step
step-IsOwned w starts v = record {
  whole = (refl, v.whole);
  balance = λ h. ground (arith, v.balance h);
  clean = v.clean;
}
step-IsOwned w (performs op i b) v = elim (Option-cases (get_elem? w.objects i)) [
  | inl e ↦ rw e v
  | inr (t, e) ↦ rw e (record {
    whole =
        All-set w.objects i _ (perform-IsWhole op t b (All-get w.objects i t e v.whole)) v.whole;
    balance = λ h. omega (
      arith,
      v.balance h,
      perform-balance op t b h,
      owners-set h i w.objects t (perform op t b).object e,
      releases-append h (perform op t b).events w.log,
    );
    clean = perform-Clean op t b w.log (λ k f. fresh w i t k v e f) v.clean;
  })
]
step-IsOwned w (destroys i b) v = elim (Option-cases (get_elem? w.objects i)) [
  | inl e ↦ rw e v
  | inr (t, e) ↦ rw e (record {
    whole = All-remove_at w.objects i v.whole;
    balance = λ h. omega (
      arith,
      v.balance h,
      drop_interface-balance t b (All-get w.objects i t e v.whole) h,
      owners-remove_at h i w.objects t e,
      releases-append h (drop_interface t b).events w.log,
    );
    clean =
        drop_interface-Clean t b (All-get w.objects i t e v.whole) w.log
          (λ k f. fresh w i t k v e f) v.clean;
  })
]
step-IsOwned w (moves i) v = elim (Option-cases (get_elem? w.objects i)) [
  | inl e ↦ rw e v
  | inr (t, e) ↦ rw e (record {
    whole = (All-get w.objects i t e v.whole, All-set w.objects i empty refl v.whole);
    balance = λ h. omega (arith, v.balance h, owners-set h i w.objects t empty e);
    clean = v.clean;
  })
]
step-IsOwned w (assigns i j b) v = elim (Bool-cases (i == j)) [
  | inl q ↦ rw q v
  | inr q ↦ rw q (elim (Option-cases (get_elem? w.objects i)) [
    | inl e ↦ rw e v
    | inr (t, e) ↦ elim (Option-cases (get_elem? w.objects j)) [
      | inl f ↦ rw (e, f) v
      | inr (s, f) ↦
          rw (e, f)
            (record {
              whole =
                  All-set _ j empty refl
                    (All-set w.objects i s (All-get w.objects j s f v.whole) v.whole);
              balance = λ h. omega (
                arith,
                v.balance h,
                drop_interface-balance t b (All-get w.objects i t e v.whole) h,
                owners-set h i w.objects t s e,
                owners-set h j (set w.objects i s) s empty
                    (get_elem?-set_ne w.objects i j s (λ p. ground arith) ∙ f),
                releases-append h (drop_interface t b).events w.log,
              );
              clean =
                  drop_interface-Clean t b (All-get w.objects i t e v.whole) w.log
                    (λ k g. fresh w i t k v e g) v.clean;
            })
    ]
  ])
]

run-IsOwned : (w : World) (cs : List Call) → IsOwned w → IsOwned (run w cs)
unfolding run
run-IsOwned w [] v = v
run-IsOwned w (c ∷ cs) v = run-IsOwned (step w c) cs (step-IsOwned w c v)

-- Whatever transactions a program starts, ends, moves, assigns and destroys, in whatever order, and
-- whatever calls of the engine fail: each interface that the engine handed out has exactly one
-- owner or was released exactly once, and none was called or released after its release.
pub run-begin-IsOwned : (cs : List Call) → IsOwned (run begin cs)
run-begin-IsOwned cs =
    run-IsOwned begin cs (record { whole = tt; balance = λ h. ground arith; clean = tt })
