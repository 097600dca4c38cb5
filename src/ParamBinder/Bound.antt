-- ===== src/ParamBinder/Bound.antt =====
-- Binding a name writes all its positions, and nothing else.
use fbpp.Prelude.{
  ℕ, ◌≤◌, ◌≡◌, ◌≢◌, refl, sym, ◌∙◌, ap, Bool, true, false, List, [], ◌∷◌, Option, none, some,
  length, set, get_elem?, All, ◌⊎◌, inl, inr,
}
use native.Mathlib.Decide.{ℕ_discrete}
use fbpp.Prelude.Ascii.{Bytes}
use fbpp.Prelude.Dict.{find}
use fbpp.Prelude.Result.{Result, ok}
use fbpp.Message.{FieldInfo}
use fbpp.Codec.{Outside}
use fbpp.Codec.Slots.{stored}
use fbpp.ParamBinder.{
  Binder, Buffers, Fault, write_at, write_all, and_then, set_param, set_fields, set_positions, keep,
  normalize_name, mark_packed,
}
use fbpp.Message.Layout.{Inside, Layout, Holds, SameSlot, Holds-SameSlot}
use fbpp.Packing.{Value, context_of}
use fbpp.Packing.Fields.{Takes, pack_value-Takes, length-stored, stored-Holds, stored-SameSlot}

abbrev pub mark_all : List ℕ → List Bool → List Bool
mark_all [] bound = bound
mark_all (p ∷ ps) bound = mark_all ps (set bound p true)

-- The field with this number has room for the value.
abbrev pub Ready : (FieldInfo → ℕ) → List FieldInfo → Value → ℕ → Type 0
Ready size fs v p =
    (f : FieldInfo) × (bs : Bytes) × (get_elem? fs p ≡ some f) × Takes f v bs × (length bs ≤ size f)

-- The field with this number holds the value.
abbrev pub Written : List FieldInfo → Value → Bytes → ℕ → Type 0
Written fs v m p =
    (f : FieldInfo) × (bs : Bytes) × (get_elem? fs p ≡ some f) × Takes f v bs × Holds f bs m

-- A number is in the list, and has what its members have, or is not in it.
member-cases {κ} : (P : ℕ → Type κ) (p : ℕ) (ps : List ℕ) → All P ps → P p ⊎ All (λ q. q ≢ p) ps
member-cases P p [] h = inr tt
member-cases P p (q ∷ ps) h = elim (ℕ_discrete q p) [
  | yes e ↦ inl (rw (← e) h.0)
  | no d ↦ elim (member-cases P p ps h.1) [ inl there ↦ inl there | inr rest ↦ inr (d, rest) ]
]

-- What a loop over the positions does to the message.
pub record Effect (size : FieldInfo → ℕ) (fs : List FieldInfo) (n : ℕ) (v : Value) (ps : List ℕ)
    (m : Bytes) (m' : Bytes) : Type 0 where
  pub same_length : length m' ≡ n
  pub written : All (Written fs v m') ps
  pub untouched :
      (q : ℕ) (g : FieldInfo)
      → All (λ p. p ≢ q) ps
      → get_elem? fs q ≡ some g
      → SameSlot (size g) g m m'

module _ (E : Outside) (tx : Bool) (size : FieldInfo → ℕ) (fs : List FieldInfo) (n : ℕ)
    (layout : Layout size fs n) (v : Value) where
  write_all-Effect :
      (ps : List ℕ) (m : Bytes) (bound : List Bool)
      → length m ≡ n
      → All (Ready size fs v) ps
      → (m' : Bytes) × (write_all E tx fs v ps (m, bound) ≡ ((m', mark_all ps bound), ok true))
        × Effect size fs n v ps m m'
  unfolding write_all write_at
  write_all-Effect [] m bound l r =
      (m, refl, record { same_length = l; written = tt; untouched = λ q g a e. (refl, refl) })
  write_all-Effect (p ∷ ps) m bound l ((f, bs, e, t, h), r) =
      let next : Buffers → Buffers × Result Fault Bool = λ b. write_all E tx fs v ps b in
      let m1 : Bytes = stored (context_of f tx) bs m in
      let at : Inside size (length m) f = rw l (layout.inside p f e) in
      let (m', run, effect) =
        write_all-Effect ps m1 (set bound p true) (length-stored f tx bs m ∙ l) r in
      (
        m',
        ap (λ o. and_then (m, bound) (write_at E tx v p (m, bound) o) next) e
            ∙ ap (λ z. and_then (m, bound) (mark_packed bound p z) next)
                (pack_value-Takes E tx f m t)
            ∙ run,
        record {
          same_length = effect.same_length;
          written = (
            elim (member-cases (Written fs v m') p ps effect.written) [
              | inl again ↦ again
              | inr once ↦ (
                f,
                bs,
                e,
                t,
                Holds-SameSlot (size f) f bs m1 m' h (effect.untouched p f once e)
                    (stored-Holds size f tx bs m at h),
              )
            ],
            effect.written,
          );
          untouched = λ q g d e'.
              let first : SameSlot (size g) g m m1 =
                stored-SameSlot size f g tx bs m at (layout.apart q p g f (λ r. d.0 (sym r)) e' e)
                  h in
              let rest : SameSlot (size g) g m1 m' = effect.untouched q g d.1 e' in
              (rest.0 ∙ first.0, rest.1 ∙ first.1);
        },
      )

set_param-Effect :
    (E : Outside) (size : FieldInfo → ℕ) (b : Binder) (fs : List FieldInfo) (name : Bytes)
    (v : Value) (ps : List ℕ)
    → b.meta ≡ some fs
    → find (normalize_name name) b.mapping ≡ some ps
    → Layout size fs (length b.buffer)
    → All (Ready size fs v) ps
    → (m' : Bytes) × (set_param E b name v
        ≡ (record b { buffer = m'; bound = mark_all ps b.bound }, ok true))
      × Effect size fs (length b.buffer) v ps b.buffer m'
unfolding set_param
set_param-Effect E size b fs name v ps e k layout r =
    let (m', run, effect) =
      write_all-Effect E b.has_transaction size fs (length b.buffer) layout v ps b.buffer b.bound
        refl r in
    (
      m',
      ap (λ o. set_fields E b o name v) e ∙ ap (λ o. set_positions E b fs v o) k ∙ ap (keep b) run,
      effect,
    )

-- Every field with a number that is not listed keeps its bytes and its null indicator.
abbrev pub Untouched : (FieldInfo → ℕ) → List FieldInfo → List ℕ → Bytes → Bytes → Type 0
Untouched size fs ps m m' =
    (q : ℕ) (g : FieldInfo)
    → All (λ p. p ≢ q) ps
    → get_elem? fs q ≡ some g
    → SameSlot (size g) g m m'

-- Binding a value to a name that the statement has, whatever its letter case and the white space
-- around it: where the fields do not overlap and each of the name's positions has room for the
-- value, which is an integer or a string, the value is written there, marked as bound and not null,
-- and any field with another number keeps its bytes and its null indicator.
pub set_param-Written :
    (E : Outside) (size : FieldInfo → ℕ) (b : Binder) (fs : List FieldInfo) (name : Bytes)
    (v : Value) (ps : List ℕ)
    → b.meta ≡ some fs
    → find (normalize_name name) b.mapping ≡ some ps
    → Layout size fs (length b.buffer)
    → All (Ready size fs v) ps
    → (m' : Bytes) × (set_param E b name v
        ≡ (record b { buffer = m'; bound = mark_all ps b.bound }, ok true))
      × (length m' ≡ length b.buffer)
      × All (Written fs v m') ps
      × Untouched size fs ps b.buffer m'
set_param-Written E size b fs name v ps e k layout r =
    let (m', run, effect) = set_param-Effect E size b fs name v ps e k layout r in
    (m', run, effect.same_length, effect.written, effect.untouched)

-- A name that the statement does not have changes nothing.
pub set_param-unknown :
    (E : Outside) (b : Binder) (name : Bytes) (v : Value)
    → find (normalize_name name) b.mapping ≡ none
    → set_param E b name v ≡ (b, ok false)
unfolding set_param
set_param-unknown E b name v k = go b.meta
  where
    go : (o : Option (List FieldInfo)) → set_fields E b o name v ≡ (b, ok false)
    go none = refl
    go (some fs) = ap (λ o. set_positions E b fs v o) k
