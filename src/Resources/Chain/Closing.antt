-- ===== src/Resources/Chain/Closing.antt =====
-- ResourceChain.close: on an open file it succeeds, and it undoes `open`.
use cwhost.Base.{ℕ, ◌≡◌, ◌∙◌, Bool, true, false, some, length, refl, arith}
use cwhost.Base.Result.{Result, ok}
use cwhost.Base.Bytes.{Bytes}
use cwhost.Base.Dict.{
  lookup, has_key, insert, erase, has_key-erase, lookup-insert, lookup-has_key, erase-insert,
}
use cwhost.Resources.{ResourceError}
use cwhost.Resources.Chain.{Chain, last, close, open_file}
use cwhost.Resources.Chain.Order.{remove-some, remove_last}
use cwhost.Resources.Chain.Numbers.{free_refnum_free}
use cwhost.Resources.Chain.Invariant.{IsChain, open_file-Opened}

module _ {Node : Type 0} (own : Node → Bool)
    (resource_fork : Node → Result ResourceError Bytes) where
  -- Closing the file that was just opened gives the chain from before back, except that the file
  -- that comes last in the order is the current one.
  pub close-open_file :
      (node : Node) (c : Chain Node) {r : ℕ} {out : Chain Node}
      → IsChain c
      → open_file own resource_fork node c ≡ ok (r, out)
      → close r out ≡ ok (record c { current = last c.order })
  unfolding close
  close-open_file node c {r = r} {out = out} h q =
      let o = open_file-Opened own resource_fork node c q in
      let free : has_key r c.files ≡ false =
        rw o.number (free_refnum_free (length c.files) 1 c.files h.files_once (omega arith)) in
      let found : lookup r (insert r o.fork c.files) ≡ some o.fork =
        rw (lookup-insert r r o.fork c.files) (ground arith) in
      rw
        (
          o.result,
          found,
          remove_last r c.order (h.same_order r ∙ free),
          erase-insert r o.fork c.files free,
          erase-insert r node c.nodes (h.same_nodes r ∙ free),
        )
        refl

module _ {Node : Type 0} where
  -- Every file that is open can be closed, and its number is free afterwards.
  pub close-succeeds :
      (r : ℕ) (c : Chain Node)
      → IsChain c
      → has_key r c.files ≡ true
      → (out : Chain Node) × (close r c ≡ ok out) × (has_key r out.files ≡ false)
  unfolding close
  close-succeeds r c h present =
      let (fork, found) = lookup-has_key r c.files present in
      let (order, removed) = remove-some r c.order (h.same_order r ∙ present) in
      let gone : has_key r (erase r c.files) ≡ false =
        rw (has_key-erase r r c.files h.files_once) (ground arith) in
      rw (found, removed)
        (
          record {
            files = erase r c.files;
            nodes = erase r c.nodes;
            order = order;
            current = last order;
          },
          refl,
          gone,
        )
