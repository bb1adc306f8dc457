-- ===== src/Resources/Chain/Invariant.antt =====
-- The state of a ResourceChain that its operations build.
use cwhost.Base.{
  ℕ, ◌≡◌, ◌≤◌, ◌<◌, ◌∙◌, Bool, true, false, not, none, some, [], ◌∷◌, ◌++◌, length, refl, sym,
  arith,
}
use cwhost.Base.Result.{Result, ok, or_raise, ◌>>=◌, >>=-eq-ok, or_raise-eq-ok}
use cwhost.Base.Bytes.{Bytes}
use cwhost.Base.Dict.{
  IsDict, lookup, has_key, insert, erase, has_key-insert, lookup-insert, insert-IsDict,
  has_key-erase, erase-IsDict, has_key-some,
}
use cwhost.Resources.{ResourceError, ResourceFork, foreign_node, parse, value_error}
use cwhost.Resources.Sound.{passed}
use cwhost.Resources.Chain.{
  Chain, chain_new, free_refnum, remove, last, check, use_file, close, open_file,
}
use cwhost.Resources.Chain.Numbers.{free_refnum_ge, free_refnum_free, free_refnum_taken}
use cwhost.Resources.Chain.Order.{
  member, Once, member-append, append-Once, member-remove, remove-Once, last-some, last-none,
}

-- The files, the nodes and the order name the same reference numbers, each once, and the current
-- one is among them; there is none only where no file is open.
pub record IsChain {Node : Type 0} (c : Chain Node) : Type 0 where
  pub files_once : IsDict c.files
  pub nodes_once : IsDict c.nodes
  pub order_once : Once c.order
  pub same_nodes : (r : ℕ) → has_key r c.nodes ≡ has_key r c.files
  pub same_order : (r : ℕ) → member r c.order ≡ has_key r c.files
  pub current_open : (r : ℕ) → c.current ≡ some r → has_key r c.files ≡ true
  pub idle : c.current ≡ none → c.order ≡ []

module _ {Node : Type 0} where
  chain_new-IsChain : IsChain {Node = Node} chain_new
  chain_new-IsChain = record {
    files_once = tt;
    nodes_once = tt;
    order_once = tt;
    same_nodes = λ r. refl;
    same_order = λ r. refl;
    current_open = λ r q. absurd cc;
    idle = λ q. refl;
  }

  use_file-IsChain :
      (r : ℕ) (c : Chain Node) {out : Chain Node} → IsChain c → use_file r c ≡ ok out → IsChain out
  unfolding use_file
  use_file-IsChain r c {out = out} h q =
      let (fork, found, q0) = >>=-eq-ok (check r c) _ q in
      let e : out ≡ record c { current = some r } = cc in
      let open_r = has_key-some r c.files (or_raise-eq-ok (lookup r c.files) _ found) in
      rw e (record {
        files_once = h.files_once;
        nodes_once = h.nodes_once;
        order_once = h.order_once;
        same_nodes = h.same_nodes;
        same_order = h.same_order;
        current_open = λ j at. let same : r ≡ j = cc in rw (← same) open_r;
        idle = λ q1. absurd cc;
      })

  close-IsChain :
      (r : ℕ) (c : Chain Node) {out : Chain Node} → IsChain c → close r c ≡ ok out → IsChain out
  unfolding close
  close-IsChain r c {out = out} h q =
      let (fork, found, q0) = >>=-eq-ok (check r c) _ q in
      let (order, removed, q1) = >>=-eq-ok (or_raise (remove r c.order) value_error) _ q0 in
      let left = or_raise-eq-ok (remove r c.order) _ removed in
      let members : (j : ℕ) → member j order ≡ has_key j (erase r c.files) = λ j.
        rw
          (
            member-remove r j c.order h.order_once left,
            has_key-erase r j c.files h.files_once,
            h.same_order j,
          )
          refl in
      let e : out ≡ record {
        files = erase r c.files;
        nodes = erase r c.nodes;
        order = order;
        current = last order;
      } =
        cc in
      rw e (record {
        files_once = erase-IsDict r c.files h.files_once;
        nodes_once = erase-IsDict r c.nodes h.nodes_once;
        order_once = remove-Once r c.order h.order_once left;
        same_nodes = λ j.
            rw
              (
                has_key-erase r j c.nodes h.nodes_once,
                has_key-erase r j c.files h.files_once,
                h.same_nodes j,
              )
              refl;
        same_order = members;
        current_open = λ j at. sym (members j) ∙ last-some order at;
        idle = last-none order;
      })

module _ {Node : Type 0} (own : Node → Bool)
    (resource_fork : Node → Result ResourceError Bytes) where
  -- what `open` did: the number it returned, and the fork it parsed
  pub record Opened (node : Node) (c : Chain Node) (r : ℕ) (out : Chain Node) : Type 0 where
    pub fork : ResourceFork
    pub bytes : Bytes
    pub ours : own node ≡ true
    pub read : resource_fork node ≡ ok bytes
    pub parsed : parse bytes ≡ ok fork
    pub number : r ≡ free_refnum (length c.files) 1 c.files
    pub result : out ≡ record {
      files = insert r fork c.files;
      nodes = insert r node c.nodes;
      order = c.order ++ r ∷ [];
      current = some r;
    }

  pub open_file-Opened :
      (node : Node) (c : Chain Node) {r : ℕ} {out : Chain Node}
      → open_file own resource_fork node c ≡ ok (r, out)
      → Opened node c r out
  unfolding open_file
  open_file-Opened node c q =
      let (ours, q0) = passed (not (own node)) foreign_node _ q in
      let (bytes, q1, q2) = >>=-eq-ok (resource_fork node) _ q0 in
      let (fork, q3, q4) = >>=-eq-ok (parse bytes) _ q2 in
      record {
        fork = fork;
        bytes = bytes;
        ours = ground arith;
        read = q1;
        parsed = q3;
        number = cc;
        result = cc;
      }

  open_file-IsChain :
      (node : Node) (c : Chain Node) {r : ℕ} {out : Chain Node}
      → IsChain c
      → open_file own resource_fork node c ≡ ok (r, out)
      → IsChain out
  open_file-IsChain node c {r = r} h q =
      let o = open_file-Opened node c q in
      let free : has_key r c.files ≡ false =
        rw o.number (free_refnum_free (length c.files) 1 c.files h.files_once (omega arith)) in
      rw o.result (record {
        files_once = insert-IsDict r o.fork c.files h.files_once;
        nodes_once = insert-IsDict r node c.nodes h.nodes_once;
        order_once = append-Once r c.order (h.same_order r ∙ free) h.order_once;
        same_nodes = λ j.
            rw (has_key-insert r j node c.nodes, has_key-insert r j o.fork c.files, h.same_nodes j)
              refl;
        same_order = λ j.
            rw (member-append j r c.order, has_key-insert r j o.fork c.files, h.same_order j) refl;
        current_open = λ j at.
            let same : r ≡ j = cc in rw (← same, has_key-insert r r o.fork c.files) (ground arith);
        idle = λ q1. absurd cc;
      })

  -- A chain that the constructor and any sequence of successful calls build.
  pub data Reachable : Chain Node → Type 0 where
    started : Reachable chain_new
    opened :
        (node : Node) {c : Chain Node} {r : ℕ} {out : Chain Node}
        → Reachable c
        → open_file own resource_fork node c ≡ ok (r, out)
        → Reachable out
    used : (r : ℕ) {c out : Chain Node} → Reachable c → use_file r c ≡ ok out → Reachable out
    closed : (r : ℕ) {c out : Chain Node} → Reachable c → close r c ≡ ok out → Reachable out

  -- Whatever files are opened, selected and closed, and in whatever order, the tables of files and
  -- nodes and the order name the same reference numbers, each once, the current file is open, and
  -- there is none only where no file is open.
  pub Reachable-IsChain : {c : Chain Node} → Reachable c → IsChain c
  Reachable-IsChain started = chain_new-IsChain
  Reachable-IsChain (opened node {c} before q) =
      open_file-IsChain node c (Reachable-IsChain before) q
  Reachable-IsChain (used r {c} before q) = use_file-IsChain r c (Reachable-IsChain before) q
  Reachable-IsChain (closed r {c} before q) = close-IsChain r c (Reachable-IsChain before) q

  -- What `open` returns on such a chain is the least number from 1 on that no open file has. The
  -- new file has the node's fork, parsed, is the current one, and comes last in the order.
  pub open_file-least :
      (node : Node) (c : Chain Node) {r : ℕ} {out : Chain Node}
      → IsChain c
      → open_file own resource_fork node c ≡ ok (r, out)
      → (1 ≤ r)
        × (has_key r c.files ≡ false)
        × ((j : ℕ) → 1 ≤ j → j < r → has_key j c.files ≡ true)
        × (out.current ≡ some r)
        × (out.order ≡ c.order ++ r ∷ [])
        × (check r out ≡ (resource_fork node >>= parse))
  open_file-least node c {r = r} {out = out} h q =
      let o = open_file-Opened node c q in
      let n = length c.files in
      let low : 1 ≤ r = rw o.number (free_refnum_ge n 1 c.files) in
      let free : has_key r c.files ≡ false =
        rw o.number (free_refnum_free n 1 c.files h.files_once (omega arith)) in
      let at : lookup r out.files ≡ some o.fork =
        rw (o.result, lookup-insert r r o.fork c.files) (ground arith) in
      (
        low,
        free,
        (λ j least less. free_refnum_taken n 1 c.files j least (rw (← o.number) less)),
        rw o.result refl,
        rw o.result refl,
        rw (at, o.read, o.parsed) refl,
      )
