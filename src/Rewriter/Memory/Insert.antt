-- ===== src/Rewriter/Memory/Insert.antt =====
-- `InsertBefore` and `InsertAfter` of ProfilerHost/ILRewriter.cpp on the abstract list.
use clr_profiling.Base.{
  ◌<◌, ◌≡◌, refl, sym, ap, ◌∙◌, ◌≢◌, List, [], ◌∷◌, ◌++◌, All, All-map, All-append, All-append_left,
  All-append_right, arith,
}
use clr_profiling.Rewriter.Opcode.{OpcodeDef}
use clr_profiling.Rewriter.Memory.{Ptr, sentinel, Il, insert_before, insert_after}
use clr_profiling.Rewriter.Memory.Chain.{
  Cell, cell, last_or, head_or, Edge, Linked, Avoids, Distinct, Allocated, Represents,
}

last_or-ne : (z a : Ptr) (cs : List Cell) → a ≢ z → Avoids z cs → last_or a cs ≢ z
last_or-ne z a [] h hs = h
last_or-ne z a (c ∷ cs) h hs = last_or-ne z c.ptr cs hs.0 hs.1

head_or-ne : (z b : Ptr) (cs : List Cell) → b ≢ z → Avoids z cs → head_or b cs ≢ z
head_or-ne z b [] h hs = h
head_or-ne z b (c ∷ cs) h hs = hs.0

-- The neighbours at a place of the list are linked.
pub Linked-mid :
    (s : Il) (a : Ptr) (pre post : List Cell) (b : Ptr)
    → Linked s a (pre ++ post) b
    → Edge s (last_or a pre) (head_or b post)
Linked-mid s a [] [] b l = l
Linked-mid s a [] (c ∷ post) b l = l.0
Linked-mid s a (c ∷ pre) post b l = Linked-mid s c.ptr pre post b l.1

-- `s'` is `s` with `p` put between the neighbours `a` and `b`.
record Spliced (s s' : Il) (a b p : Ptr) : Type 0 where
  next_new : s'.next p ≡ b
  prev_new : s'.prev p ≡ a
  next_left : s'.next a ≡ p
  prev_right : s'.prev b ≡ p
  next_same : (x : Ptr) → x ≢ p → x ≢ a → s'.next x ≡ s.next x
  prev_same : (x : Ptr) → x ≢ p → x ≢ b → s'.prev x ≡ s.prev x

module _ (s s' : Il) (left right p : Ptr) (sp : Spliced s s' left right p) where
  -- Links survive where neither end is written.
  Linked-frame :
      (a : Ptr) (cs : List Cell) (b : Ptr)
      → a ≢ p
      → a ≢ left
      → b ≢ p
      → b ≢ right
      → Avoids p cs
      → Avoids left cs
      → Avoids right cs
      → Linked s a cs b
      → Linked s' a cs b
  Linked-frame a [] b ap al bp br hp hl hr l =
      (sp.next_same a ap al ∙ l.0, sp.prev_same b bp br ∙ l.1)
  Linked-frame a (c ∷ cs) b ap al bp br hp hl hr l = (
    (sp.next_same a ap al ∙ l.0.0, sp.prev_same c.ptr hp.0 hr.0 ∙ l.0.1),
    Linked-frame c.ptr cs b hp.0 hl.0 bp br hp.1 hl.1 hr.1 l.1,
  )

ne_sym : {a b : Ptr} → a ≢ b → b ≢ a
ne_sym h e = h (sym e)

module _ (s s' : Il) (p op v : Ptr) where
  Linked-splice :
      (a : Ptr) (pre post : List Cell) (b : Ptr)
      → Spliced s s' (last_or a pre) (head_or b post) p
      → a ≢ p
      → b ≢ p
      → Avoids p (pre ++ post)
      → Avoids a (pre ++ post)
      → Avoids b (pre ++ post)
      → Distinct (pre ++ post)
      → Linked s a (pre ++ post) b
      → Linked s' a (pre ++ cell p op v ∷ post) b
  Linked-splice a [] [] b sp ap bp hp ha hb d l =
      ((sp.next_left, sp.prev_new), (sp.next_new, sp.prev_right))
  Linked-splice a [] (c ∷ cs) b sp ap bp hp ha hb d l = (
    (sp.next_left, sp.prev_new),
    (
      (sp.next_new, sp.prev_right),
      Linked-frame s s' a c.ptr p sp c.ptr cs b hp.0 ha.0 bp (ne_sym hb.0) hp.1 ha.1 d.0 l.1,
    ),
  )
  Linked-splice a (c ∷ pre) post b sp ap bp hp ha hb d l = (
    (
      sp.next_same a ap (ne_sym (last_or-ne a c.ptr pre ha.0 (All-append_left _ pre post ha.1)))
          ∙ l.0.0,
      sp.prev_same c.ptr hp.0
            (ne_sym (head_or-ne c.ptr b post (ne_sym hb.0) (All-append_right _ pre post d.0)))
          ∙ l.0.1,
    ),
    Linked-splice c.ptr pre post b sp hp.0 bp hp.1 d.0 hb.1 d.1 l.1,
  )

Distinct-insert :
    (p op v : Ptr) (pre post : List Cell)
    → Avoids p (pre ++ post)
    → Distinct (pre ++ post)
    → Distinct (pre ++ cell p op v ∷ post)
Distinct-insert p op v [] post h d = (h, d)
Distinct-insert p op v (c ∷ pre) post h d = (
  All-append _ pre (cell p op v ∷ post) (All-append_left _ pre post d.0)
      (ne_sym h.0, All-append_right _ pre post d.0),
  Distinct-insert p op v pre post h.1 d.1,
)

All-insert :
    (P : Cell → Type 0) (c : Cell) (pre post : List Cell)
    → P c
    → All P (pre ++ post)
    → All P (pre ++ c ∷ post)
All-insert P c pre post h hs =
    All-append P pre (c ∷ post) (All-append_left P pre post hs) (h, All-append_right P pre post hs)

-- No cell stands at an address outside of what was allocated.
Avoids-sentinel : (fresh : Ptr) (cs : List Cell) → Allocated fresh cs → Avoids sentinel cs
Avoids-sentinel fresh cs h = All-map cs (λ c (lo, hi). (omega arith)) h

module _ (s s' : Il) (p : Ptr) where
  -- A node put between two neighbours is one more cell of the list.
  Represents-splice :
      (pre post : List Cell)
      → Represents s (pre ++ post)
      → Avoids p (pre ++ post)
      → sentinel < p
      → p < s'.fresh
      → s'.fresh ≡ s.fresh
      → s'.opcode ≡ s.opcode
      → s'.arg ≡ s.arg
      → Spliced s s' (last_or sentinel pre) (head_or sentinel post) p
      → Represents s' (pre ++ cell p (s.opcode p) (s.arg p) ∷ post)
  Represents-splice pre post r out lo hi ef eo ea sp = record {
    linked =
        Linked-splice s s' p (s.opcode p) (s.arg p) sentinel pre post sentinel sp (omega arith)
          (omega arith) out home home r.distinct r.linked;
    distinct = Distinct-insert p (s.opcode p) (s.arg p) pre post out r.distinct;
    allocated = All-insert _ (cell p (s.opcode p) (s.arg p)) pre post (lo, hi) (rw ef r.allocated);
    room = rw ef r.room;
    holds =
        All-insert _ (cell p (s.opcode p) (s.arg p)) pre post
          (ap (λ (f : Ptr → Ptr). f p) eo, ap (λ (f : Ptr → Ptr). f p) ea) (rw (eo, ea) r.holds);
  }
    where
      home : Avoids sentinel (pre ++ post)
      home = Avoids-sentinel s.fresh (pre ++ post) r.allocated

module _ ⦃def : OpcodeDef⦄ (s : Il) (p a b : Ptr) where
  insert_before-Spliced : s.prev b ≡ a → a ≢ p → b ≢ p → Spliced s (insert_before b p s) a b p
  unfolding insert_before
  insert_before-Spliced e ap bp = record {
    next_new = ground arith;
    prev_new = ground arith;
    next_left = ground arith;
    prev_right = ground arith;
    next_same = λ x xp xa. ground arith;
    prev_same = λ x xp xb. ground arith;
  }

  insert_after-Spliced : s.next a ≡ b → a ≢ p → b ≢ p → Spliced s (insert_after a p s) a b p
  unfolding insert_after
  insert_after-Spliced e ap bp = record {
    next_new = ground arith;
    prev_new = ground arith;
    next_left = ground arith;
    prev_right = ground arith;
    next_same = λ x xp xa. ground arith;
    prev_same = λ x xp xb. ground arith;
  }

module _ ⦃def : OpcodeDef⦄ (s : Il) (p : Ptr) (pre post : List Cell) where
  -- `InsertBefore` with an allocated node that is not in the list puts this node, with its opcode
  -- and argument, in front of the given place, which may be the end; all other cells keep their
  -- order, and the memory is a well-formed list again.
  pub insert_before_lem :
      Represents s (pre ++ post)
      → Avoids p (pre ++ post)
      → sentinel < p
      → p < s.fresh
      → Represents
          (insert_before (head_or sentinel post) p s)
          (pre ++ cell p (s.opcode p) (s.arg p) ∷ post)
  unfolding insert_before
  insert_before_lem r out lo hi =
      Represents-splice s (insert_before (head_or sentinel post) p s) p pre post r out lo hi refl
        refl refl
        (insert_before-Spliced s p (last_or sentinel pre) (head_or sentinel post)
          (Linked-mid s sentinel pre post sentinel r.linked).1
          (last_or-ne p sentinel pre (omega arith) (All-append_left _ pre post out))
          (head_or-ne p sentinel post (omega arith) (All-append_right _ pre post out)))

  -- `InsertAfter` with an allocated node that is not in the list puts this node behind the given
  -- place, which may be the front; all other cells keep their order, and the memory is a
  -- well-formed list again.
  pub insert_after_lem :
      Represents s (pre ++ post)
      → Avoids p (pre ++ post)
      → sentinel < p
      → p < s.fresh
      → Represents
          (insert_after (last_or sentinel pre) p s)
          (pre ++ cell p (s.opcode p) (s.arg p) ∷ post)
  unfolding insert_after
  insert_after_lem r out lo hi =
      Represents-splice s (insert_after (last_or sentinel pre) p s) p pre post r out lo hi refl refl
        refl
        (insert_after-Spliced s p (last_or sentinel pre) (head_or sentinel post)
          (Linked-mid s sentinel pre post sentinel r.linked).0
          (last_or-ne p sentinel pre (omega arith) (All-append_left _ pre post out))
          (head_or-ne p sentinel post (omega arith) (All-append_right _ pre post out)))
