-- ===== src/LinkedList/Heap.antt =====
-- Nodes and lists at addresses, and the commands that read and write their fields.
use coremio.Prelude.{List, has, ◌≡◌, ℕ, Bool, true, false, Option, none, some, ◌==◌, if◌then◌else◌}

abbrev pub Ptr : Type 0
Ptr = ℕ

abbrev pub null : Ptr
null = 0

-- `s_list_node`
pub record Node : Type 0 where
  pub owner : Ptr
  pub next : Ptr
  pub previous : Ptr

abbrev pub node_of : Ptr → Ptr → Ptr → Node
node_of o n p = record { owner = o; next = n; previous = p }

-- `s_list`
pub record Header : Type 0 where
  pub head : Ptr
  pub tail : Ptr
  pub entries : ℕ

abbrev pub header_of : Ptr → Ptr → ℕ → Header
header_of h t n = record { head = h; tail = t; entries = n }

-- the nodes and the list headers that are allocated
pub record Store : Type 0 where
  pub node : Ptr → Option Node
  pub list : Ptr → Option Header

-- `aborted` is a failed `d_assert`, `fault` the use of a null or dangling pointer
pub data Run (A : Type 0) : Type 0 where
  ok : A → Store → Run A
  fault : Run A
  aborted : Run A
  out_of_fuel : Run A

abbrev pub Cmd : Type 0 → Type 0
Cmd A = Store → Run A

abbrev pub pure : {A : Type 0} → A → Cmd A
pure = ok

module _ {A B : Type 0} where
  abbrev pub and_then : Run A → (A → Cmd B) → Run B
  and_then (ok a s) k = k a s
  and_then fault k = fault
  and_then aborted k = aborted
  and_then out_of_fuel k = out_of_fuel

  infixl 5 ◌>>=◌ ◌>>◌
  abbrev pub ◌>>=◌ : Cmd A → (A → Cmd B) → Cmd B
  m >>= k = λ s. and_then (m s) k

  abbrev pub ◌>>◌ : Cmd A → Cmd B → Cmd B
  m >> n = m >>= λ _. n

abbrev pub skip : Cmd (Unit {0})
skip = ok tt

abbrev pub set_node : Ptr → Node → Store → Store
set_node p n s = record s { node = λ a. if a == p then some n else s.node a }

abbrev pub set_list : Ptr → Header → Store → Store
set_list l h s = record s { list = λ a. if a == l then some h else s.list a }

-- `*p`
unfoldable pub load : Ptr → Cmd Node
load p s = elim (s.node p) [ none ↦ fault | some n ↦ if p == null then fault else ok n s ]

-- `p->next = q`, `p->previous = q`, `p->owner = l`
unfoldable pub set_next : Ptr → Ptr → Cmd (Unit {0})
set_next p q = load p >>= λ n s. ok tt (set_node p (record n { next = q }) s)

unfoldable pub set_previous : Ptr → Ptr → Cmd (Unit {0})
set_previous p q = load p >>= λ n s. ok tt (set_node p (record n { previous = q }) s)

unfoldable pub set_owner : Ptr → Ptr → Cmd (Unit {0})
set_owner p l = load p >>= λ n s. ok tt (set_node p (record n { owner = l }) s)

-- the fields of the list at `l`
unfoldable pub load_list : Ptr → Cmd Header
load_list l s = elim (s.list l) [ none ↦ fault | some h ↦ if l == null then fault else ok h s ]

unfoldable pub set_head : Ptr → Ptr → Cmd (Unit {0})
set_head l p = load_list l >>= λ h s. ok tt (set_list l (record h { head = p }) s)

unfoldable pub set_tail : Ptr → Ptr → Cmd (Unit {0})
set_tail l p = load_list l >>= λ h s. ok tt (set_list l (record h { tail = p }) s)

unfoldable pub set_entries : Ptr → ℕ → Cmd (Unit {0})
set_entries l n = load_list l >>= λ h s. ok tt (set_list l (record h { entries = n }) s)

-- `d_assert`
unfoldable pub assert : Bool → Cmd (Unit {0})
assert true = skip
assert false = λ _. aborted

-- Total correctness of a run: it does not fault, abort or run out of fuel, and `P` holds after it.
abbrev pub Ensures : {A : Type 0} → (A → Store → Type 0) → Run A → Type 0
Ensures P (ok a s) = P a s
Ensures P fault = ⊥
Ensures P aborted = ⊥
Ensures P out_of_fuel = ⊥

pub Ensures-mono :
    {A : Type 0} (P Q : A → Store → Type 0) (r : Run A)
    → Ensures P r
    → ((a : A) (s : Store) → P a s → Q a s)
    → Ensures Q r
Ensures-mono P Q (ok a s) p weaken = weaken a s p
Ensures-mono P Q fault p weaken = p
Ensures-mono P Q aborted p weaken = p
Ensures-mono P Q out_of_fuel p weaken = p

pub Ensures-bind :
    {A B : Type 0} (P : A → Store → Type 0) (Q : B → Store → Type 0) (r : Run A) (k : A → Cmd B)
    → Ensures P r
    → ((a : A) (s : Store) → P a s → Ensures Q (k a s))
    → Ensures Q (and_then r k)
Ensures-bind P Q (ok a s) k p next = next a s p
Ensures-bind P Q fault k p next = absurd p
Ensures-bind P Q aborted k p next = absurd p
Ensures-bind P Q out_of_fuel k p next = absurd p

-- What an operation on the list `l` over the nodes `ps` leaves alone.
pub record Keeps (s s' : Store) (l : Ptr) (ps : List Ptr) : Type 0 where
  pub nodes : (a : Ptr) → has a ps ≡ false → s'.node a ≡ s.node a
  pub lists : (a : Ptr) → (a == l) ≡ false → s'.list a ≡ s.list a

-- the commands that a proof about one run computes with
unfoldable pub commands : Unit {0}
unfolding load set_next set_previous set_owner load_list set_head set_tail set_entries assert
commands = tt
