-- ===== src/Transaction/World.antt =====
-- The program's transaction objects, and what they ask of the engine.
use fbpp.Prelude.{
  ℕ, zero, suc, ◌+◌, Bool, true, List, [], ◌∷◌, ◌++◌, Option, none, some, ◌==◌, if◌then◌else◌,
  get_elem?, set,
}
use fbpp.Transaction.{Transaction, Operation, Event, After, empty, perform, drop_interface}

-- The objects in their order; a destroyed one is gone. `next` numbers the engine's interfaces.
pub record World : Type 0 where
  pub objects : List Transaction
  pub log : List Event
  pub next : ℕ

-- A call names an object by its place; the flag says whether the engine's call succeeds.
pub data Call : Type 0 where
  starts : Call
  performs : Operation → ℕ → Bool → Call
  destroys : ℕ → Bool → Call
  moves : ℕ → Call
  assigns : ℕ → ℕ → Bool → Call

unfoldable pub remove_at : ℕ → List Transaction → List Transaction
remove_at i [] = []
remove_at zero (t ∷ ts) = ts
remove_at (suc i) (t ∷ ts) = t ∷ remove_at i ts

abbrev pub world_after : World → ℕ → After → World
world_after w i a = record w { objects = set w.objects i a.object; log = a.events ++ w.log }

abbrev pub perform_at : World → Operation → ℕ → Bool → Option Transaction → World
perform_at w op i succeeds none = w
perform_at w op i succeeds (some t) = world_after w i (perform op t succeeds)

-- The destructor.
abbrev pub destroy_at : World → ℕ → Bool → Option Transaction → World
destroy_at w i succeeds none = w
destroy_at w i succeeds (some t) = record w {
  objects = remove_at i w.objects;
  log = (drop_interface t succeeds).events ++ w.log;
}

-- The move constructor: a new object takes the members, the source is emptied.
abbrev pub move_at : World → ℕ → Option Transaction → World
move_at w i none = w
move_at w i (some t) = record w { objects = t ∷ set w.objects i empty }

-- The move assignment, of object `j` to object `i`.
abbrev pub assign_at : World → ℕ → ℕ → Bool → Option Transaction → Option Transaction → World
assign_at w i j succeeds (some t) (some s) = record w {
  objects = set (set w.objects i s) j empty;
  log = (drop_interface t succeeds).events ++ w.log;
}
assign_at w i j succeeds _ _ = w

unfoldable pub step : World → Call → World
step w starts = record w {
  objects = record { handle = some w.next; active = true } ∷ w.objects;
  next = w.next + 1;
}
step w (performs op i succeeds) = perform_at w op i succeeds (get_elem? w.objects i)
step w (destroys i succeeds) = destroy_at w i succeeds (get_elem? w.objects i)
step w (moves i) = move_at w i (get_elem? w.objects i)
step w (assigns i j succeeds) =
    if i == j then w else assign_at w i j succeeds (get_elem? w.objects i) (get_elem? w.objects j)

unfoldable pub run : World → List Call → World
unfolding step
run w [] = w
run w (c ∷ cs) = run (step w c) cs

abbrev pub begin : World
begin = record { objects = []; log = []; next = 0 }
