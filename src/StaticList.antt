-- ===== src/StaticList.antt =====
-- `static_list` of include/coro/static_list.hpp: a doubly linked list whose nodes all live in one
-- array of the list itself. The node of index i has the address i + 1, and 0 is `nullptr`.
-- A command that would dereference a pointer to no node of the array is a fault.
pub mod Chain
pub mod Values
pub mod Writes
pub mod Runs
pub mod Validity
pub mod Parts
pub mod Release
pub mod Link
pub mod Emplace
pub mod Pop
pub mod Construct
pub mod Iterate
pub mod Contents
pub mod Erase
pub mod Interrupted
pub mod Reused
pub mod Traverse
pub mod Commands
use mathlib.Core.Option
use baremetal_cxx_coro.Common.{
  ℕ, zero, suc, ◌+◌, Bool, true, false, Option, none, some, ◌==◌, leb, if◌then◌else◌,
}

abbrev pub Ptr : Type 0
Ptr = ℕ

abbrev pub null : Ptr
null = 0

-- `static_list_node`
pub record Node (T : Type 0) : Type 0 where
  pub next : Ptr
  pub prev : Ptr
  pub value : T

abbrev pub Buffer : Type 0 → Type 0
Buffer T = Ptr → Option (Node T)

-- The members of `static_list`.
pub record StaticList (T : Type 0) : Type 0 where
  pub buffer : Buffer T
  pub free : Ptr
  pub first : Ptr
  pub last : Ptr

-- A command on the list: `none` is the SEGV or hardware exception of the class comment.
abbrev pub Cmd : Type 0 → Type 0 → Type 0
Cmd T A = StaticList T → Option (A × StaticList T)

abbrev pub pure : {T A : Type 0} → A → Cmd T A
pure a l = some (a, l)

abbrev pub and_then :
    {T A B : Type 0} → Option (A × StaticList T) → (A → Cmd T B) → Option (B × StaticList T)
and_then none k = none
and_then (some (a, l)) k = k a l

infixl 5 ◌>>=◌ ◌>>◌
abbrev pub ◌>>=◌ : {T A B : Type 0} → Cmd T A → (A → Cmd T B) → Cmd T B
m >>= k = λ l. and_then (m l) k

abbrev pub ◌>>◌ : {T B : Type 0} → Cmd T (Unit {0}) → Cmd T B → Cmd T B
m >> k = m >>= λ _. k

abbrev pub get_array_entry : ℕ → Ptr
get_array_entry i = i + 1

-- The buffer after one member of a node is written; nothing changes where there is no node.
module _ {T : Type 0} (h : Buffer T) (p : Ptr) where
  pub with_next : Ptr → Buffer T
  with_next q a = if a == p then Option.map (λ (n : Node T). record n { next = q }) (h a) else h a

  pub with_prev : Ptr → Buffer T
  with_prev q a = if a == p then Option.map (λ (n : Node T). record n { prev = q }) (h a) else h a

  pub with_value : T → Buffer T
  with_value v a = if a == p then Option.map (λ (n : Node T). record n { value = v }) (h a) else h a

module _ {T : Type 0} where
  -- `*p`
  pub deref : Ptr → Cmd T (Node T)
  deref p l = elim (l.buffer p) [ none ↦ none | some n ↦ some (n, l) ]

  pub set_next : Ptr → Ptr → Cmd T (Unit {0})
  set_next p q = do _ ← deref p; λ l. some (tt, record l { buffer = with_next l.buffer p q })

  pub set_prev : Ptr → Ptr → Cmd T (Unit {0})
  set_prev p q = do _ ← deref p; λ l. some (tt, record l { buffer = with_prev l.buffer p q })

  -- The placement `new` of a value in a node.
  pub set_value : Ptr → T → Cmd T (Unit {0})
  set_value p v = do _ ← deref p; λ l. some (tt, record l { buffer = with_value l.buffer p v })

  abbrev set_free : Ptr → Cmd T (Unit {0})
  set_free p l = some (tt, record l { free = p })

  abbrev set_first : Ptr → Cmd T (Unit {0})
  set_first p l = some (tt, record l { first = p })

  abbrev set_last : Ptr → Cmd T (Unit {0})
  set_last p l = some (tt, record l { last = p })

  -- `if (p) …`
  abbrev unless_null : Ptr → Cmd T (Unit {0}) → Cmd T (Unit {0})
  unless_null p m = if p == null then pure tt else m

  pub get_free_elem : Cmd T Ptr
  get_free_elem l =
      (if l.free == null then pure null else do
        n ← deref l.free
        set_free n.next
        unless_null n.next (set_prev n.next null)
        pure l.free)
        l

  pub return_free_elem : Ptr → Cmd T (Unit {0})
  return_free_elem elem l =
      (do
        set_prev elem null
        set_next elem l.free
        unless_null l.free (set_prev l.free elem)
        set_free elem)
        l

  pub empty : StaticList T → Bool
  empty l = l.first == null

  -- `iterator`: `begin`, `end` and `rbegin` are the pointers that they hold.
  unfoldable pub begin : StaticList T → Ptr
  begin l = l.first

  pub end : StaticList T → Ptr
  end l = null

  abbrev pub rbegin : StaticList T → Ptr
  rbegin l = l.last

  -- `operator++` of the forward and of the reverse iterator
  pub increment : Ptr → Cmd T Ptr
  increment v = if v == null then pure v else do n ← deref v; pure n.next

  pub increment_reverse : Ptr → Cmd T Ptr
  increment_reverse v = if v == null then pure v else do n ← deref v; pure n.prev

  -- `operator*` and `operator->`
  pub dereference : Ptr → Cmd T T
  dereference v = do n ← deref v; pure n.value

  pub front : Cmd T T
  front l = (do n ← deref l.first; pure n.value) l

  pub back : Cmd T T
  back l = (do n ← deref l.last; pure n.value) l

  pub pop_front : Cmd T (Unit {0})
  pop_front l =
      (if l.first == null then pure tt else do
        n ← deref l.first
        unless_null n.next (set_prev n.next null)
        return_free_elem l.first
        (if l.first == l.last then set_last n.next else pure tt)
        set_first n.next)
        l

  pub pop_back : Cmd T (Unit {0})
  pop_back l =
      (if l.last == null then pure tt else do
        n ← deref l.last
        unless_null n.prev (set_next n.prev null)
        return_free_elem l.last
        (if l.first == l.last then set_first n.prev else pure tt)
        set_last n.prev)
        l

  -- The insertion of an allocated node behind the last one.
  pub insert_last : Ptr → Cmd T (Unit {0})
  insert_last elem l =
      (do
        set_prev elem l.last
        set_next elem null
        unless_null l.last (set_next l.last elem)
        set_last elem
        (if l.first == null then set_first elem else pure tt))
        l

  -- The insertion of an allocated node before the node at `next`.
  pub insert_before : Ptr → Ptr → Cmd T (Unit {0})
  insert_before elem next = do
    n ← deref next
    set_prev elem n.prev
    (if n.prev == null then set_first elem else set_next n.prev elem)
    set_next elem next
    (if next == null then set_last elem else set_prev next elem)

  pub emplace : Ptr → T → Cmd T (Unit {0})
  emplace i v = do
    elem ← get_free_elem
    unless_null elem
        (do set_value elem v; if i == null then insert_last elem else insert_before elem i)

  pub emplace_back : T → Cmd T (Unit {0})
  emplace_back v = do elem ← get_free_elem; unless_null elem (do set_value elem v; insert_last elem)

  pub erase : Ptr → Cmd T (Unit {0})
  erase i = do
    n ← deref i
    (if n.prev == null then set_first n.next else set_next n.prev n.next)
    (if n.next == null then set_last n.prev else set_prev n.next n.prev)
    return_free_elem i

  -- The constructor's loop over the array: `left` rounds to go at `this_node`.
  pub link_nodes : ℕ → Ptr → Ptr → Cmd T Ptr
  link_nodes zero this_node prev = pure prev
  link_nodes (suc left) this_node prev = do
    set_prev this_node prev
    unless_null prev (set_next prev this_node)
    link_nodes left (this_node + 1) this_node

  -- The members' initialisers. The array is not initialised: `raw` is what it happens to hold.
  pub uninitialised : (ℕ → Node T) → ℕ → StaticList T
  uninitialised raw n = record {
    buffer = λ a. if a == null then none else if leb a n then some (raw a) else none;
    free = get_array_entry 0;
    first = null;
    last = null;
  }

  -- `static_list()` for `N = n`
  pub construct : (ℕ → Node T) → ℕ → Option (StaticList T)
  construct raw n =
      Option.map (λ (r : Unit {0} × StaticList T). r.1)
        ((do prev ← link_nodes n (get_array_entry 0) null; set_next prev null)
          (uninitialised raw n))
