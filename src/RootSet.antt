-- ===== src/RootSet.antt =====
-- The root set of vm/memory.c: a linked list of the addresses of C variables that the collector
-- must update. Nodes stand at addresses, and a node that was freed is gone.
pub mod Chain
pub mod Remove
pub mod Last
pub mod Add
mod Tests
use kek_on_rails.Base.{
  ℕ, zero, suc, ◌+◌, ◌%◌, ◌^◌, true, false, Option, none, some, List, [], ◌∷◌, ◌==◌, if◌then◌else◌,
}
use kek_on_rails.Outcome.{assertion, bad_access, out_of_fuel, ok, stop}
use kek_on_rails.State.{State, pure, ◌>>=◌, ◌>>◌, get, put, halt, check}

abbrev pub null_node : ℕ
null_node = 0

pub record RootNode : Type 0 where
  pub next : ℕ
  pub obj : ℕ
  pub uid : ℕ

-- `head` is gc_rootset_g, `last_uid` is gc_rootset_last_uid_g.
pub record Roots : Type 0 where
  pub head : ℕ
  pub last_uid : ℕ
  pub node : ℕ → Option RootNode

abbrev pub put_node : (ℕ → Option RootNode) → ℕ → Option RootNode → ℕ → Option RootNode
put_node f p n q = if p == q then n else f q

-- A read through a node's pointer: a fault at the null pointer and at a freed node.
unfoldable pub load_node : ℕ → State Roots RootNode
load_node p s = elim (s.node p) [ none ↦ stop bad_access | some n ↦ ok (n, s) ]

unfoldable pub store_node : ℕ → Option RootNode → State Roots (Unit {0})
store_node p n s = ok (tt, record s { node = put_node s.node p n })

-- `fresh` is what `malloc` returns; the new node goes in front, and the counter is 32 bits wide.
unfoldable pub gc_rootset_add : ℕ → ℕ → State Roots ℕ
gc_rootset_add fresh obj = do
  s ← get
  let uid = (s.last_uid + 1) % 2 ^ 32
  put (record s {
    head = fresh;
    last_uid = uid;
    node = put_node s.node fresh (some (record { next = s.head; obj = obj; uid = uid }));
  })
  pure uid

-- The last node of the list: it is freed, and forgotten only if it was the first one too.
unfoldable pub drop_last : ℕ → State Roots (Unit {0})
drop_last gr = do
  store_node gr none
  s ← get
  put (record s { head = if s.head == gr then null_node else s.head })

-- A node with one behind it takes over that one's contents, and the one behind is freed.
unfoldable pub take_over : ℕ → ℕ → State Roots ℕ
take_over gr next = do m ← load_node next; store_node gr (some m); store_node next none; pure m.next

-- The loop of `gc_rootset_remove_id`, which goes on behind a node that took over.
unfoldable pub remove_loop : ℕ → ℕ → ℕ → State Roots (Unit {0})
remove_loop zero id gr = halt out_of_fuel
remove_loop (suc fuel) id gr = if gr == null_node then pure tt else do
  n ← load_node gr
  if n.uid == id
      then (if n.next == null_node
          then drop_last gr
          else (do next ← take_over gr n.next; remove_loop fuel id next))
      else remove_loop fuel id n.next

unfoldable pub gc_rootset_remove_id : ℕ → ℕ → State Roots (Unit {0})
gc_rootset_remove_id fuel id = do
  s ← get
  check (if s.head == null_node then false else true) assertion
  remove_loop fuel id s.head

-- The walk of `gc_rootset` over this list: the variables that it hands to the collector.
unfoldable pub gc_rootset_walk : ℕ → ℕ → State Roots (List ℕ)
gc_rootset_walk zero gr = halt out_of_fuel
gc_rootset_walk (suc fuel) gr =
    if gr == null_node
    then pure []
    else do n ← load_node gr; objs ← gc_rootset_walk fuel n.next; pure (n.obj ∷ objs)

unfoldable pub gc_rootset_init : Roots → Roots
gc_rootset_init s = record s { head = null_node; last_uid = 0 }

-- `gc_rootset_free`, from the node `gr` on.
unfoldable pub free_loop : ℕ → ℕ → State Roots (Unit {0})
free_loop zero gr = halt out_of_fuel
free_loop (suc fuel) gr =
    if gr == null_node
    then pure tt
    else do n ← load_node gr; store_node gr none; free_loop fuel n.next
