-- ===== src/Statement/Binding.antt =====
-- A parameter that is bound by name, in the message that the engine gets.
use fbpp.Prelude.{
  ℕ, ◌≡◌, ◌<◌, ◌∙◌, ap, false, List, [], ◌∷◌, none, some, length, All, arith, if◌then◌else◌,
}
use fbpp.Prelude.Ascii.{Bytes}
use fbpp.Prelude.Dict.{find}
use fbpp.Message.{FieldInfo}
use fbpp.Message.Layout.{Layout}
use fbpp.Codec.{Outside}
use fbpp.Packing.{Value}
use fbpp.ParamBinder.{Binder, set_param, normalize_name, no_fields, is_empty}
use fbpp.ParamBinder.Bound.{Ready, Written, mark_all, Untouched, set_param-Written}
use fbpp.Transaction.{Transaction}
use fbpp.Statement.{Statement, executed, Executed}
use fbpp.Statement.Params.{bound_message, transaction_execute_bound}
use fbpp.Statement.Sent
use fbpp.Statement.Sent.{answer_of, succeeded, after_execute-eq, execute_raw-eq}

no_fields-some : (fs : List FieldInfo) → 0 < length fs → no_fields (some fs) ≡ false
no_fields-some [] p = absurd (omega (arith, p))
no_fields-some (f ∷ fs) p = ground arith

-- Binding a value by name and then executing through an active transaction, where the value has room
-- in each of the name's fields and no two fields overlap: the engine is asked once, with a message in
-- which each of the name's fields holds the value and every other field, if there is any, is as it
-- was in the binder.
pub set_param-sent :
    (E : Outside) (size : FieldInfo → ℕ) (b : Binder) (fs : List FieldInfo) (name : Bytes)
    (v : Value) (ps : List ℕ) (st : Statement) (h : ℕ) (t : Transaction) (a : Executed)
    → b.meta ≡ some fs
    → 0 < length fs
    → find (normalize_name name) b.mapping ≡ some ps
    → Layout size fs (length b.buffer)
    → All (Ready size fs v) ps
    → Sent.Ready st h t
    → (m : Bytes) × (transaction_execute_bound t (some st) (set_param E b name v).0 a
        ≡ (executed h t.handle (some m) (succeeded a.reply) ∷ [], answer_of a a.reply))
      × All (Written fs v m) ps
      × Untouched size fs ps b.buffer m
unfolding transaction_execute_bound
set_param-sent E size b fs name v ps st h t a e p k layout ready r =
    let (m, run, length_m, written, same) =
      set_param-Written E size b fs name v ps e k layout ready in
    let after : Binder = record b { buffer = m; bound = mark_all ps b.bound } in
    let filled : is_empty after ≡ false = unfold is_empty in ap no_fields e ∙ no_fields-some fs p in
    let message : bound_message (set_param E b name v).0 ≡ some m =
      ap (λ z. bound_message z.0) run ∙ ap (λ c. if c then none else some m) filled in
    let eq : _ × _ = after_execute-eq st h t.handle (some m) a a.reply in
    (
      m,
      rw (r.in_transaction, message, execute_raw-eq st h t (some m) a r) (λ i. (eq.0 i, eq.1 i)),
      written,
      same,
    )
