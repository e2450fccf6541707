-- ===== src/Rewriter/Memory/Track.antt =====
-- The whole instruction list of ProfilerHost/ILRewriter.cpp with its two counters, and what the
-- insertion of a new node does to them.
use clr_profiling.Base.{
  ℕ, ◌+◌, ◌≤◌, ◌<◌, ◌≡◌, refl, ◌∙◌, ◌≢◌, List, [], ◌∷◌, ◌++◌, length, All, All-map, arith,
}
use clr_profiling.Base.Words.{u32}
use clr_profiling.Rewriter.Opcode.{OpcodeDef, stack_pushes}
use clr_profiling.Rewriter.Memory.{Ptr, sentinel, Il, insert_before, insert_after}
use clr_profiling.Rewriter.Memory.Chain.{
  Cell, cell, last_or, head_or, Linked, Avoids, Allocated, Represents,
}
use clr_profiling.Rewriter.Memory.Insert.{insert_before_lem, insert_after_lem}

-- What the table says the cells push, all together.
abbrev pub pushes : ⦃def : OpcodeDef⦄ → List Cell → ℕ
pushes [] = 0
pushes (c ∷ cs) = stack_pushes c.opcode + pushes cs

pub pushes-append :
    ⦃def : OpcodeDef⦄ (xs ys : List Cell) → pushes (xs ++ ys) ≡ pushes xs + pushes ys
pushes-append [] ys = omega arith
pushes-append (x ∷ xs) ys = omega (arith, pushes-append xs ys)

-- The list, `m_nInstrs` as its length, and `m_maxStack` as the depth of the original method plus
-- all that the instructions push, both modulo 2 ^ 32.
pub record Tracks ⦃def : OpcodeDef⦄ (depth : ℕ) (s : Il) (cs : List Cell) : Type 0 where
  pub represents : Represents s cs
  pub counted : u32 s.n_instrs ≡ u32 (length cs)
  pub deep : u32 s.max_stack ≡ u32 (depth + pushes cs)

-- `s'` is `s` with one node more, not yet linked, that holds `op` and `v`.
pub record Made (s s' : Il) (op v : ℕ) : Type 0 where
  pub fresh : s'.fresh ≡ s.fresh + 1
  pub opcode_new : s'.opcode s.fresh ≡ op
  pub arg_new : s'.arg s.fresh ≡ v
  pub count : s'.n_instrs ≡ u32 (s.n_instrs + 1)
  pub depth : s'.max_stack ≡ s.max_stack
  pub next_same : (x : Ptr) → x ≢ s.fresh → s'.next x ≡ s.next x
  pub prev_same : (x : Ptr) → x ≢ s.fresh → s'.prev x ≡ s.prev x
  pub opcode_same : (x : Ptr) → x ≢ s.fresh → s'.opcode x ≡ s.opcode x
  pub arg_same : (x : Ptr) → x ≢ s.fresh → s'.arg x ≡ s.arg x

Linked-same :
    (s s' : Il) (f a : Ptr) (cs : List Cell) (b : Ptr)
    → ((x : Ptr) → x ≢ f → s'.next x ≡ s.next x)
    → ((x : Ptr) → x ≢ f → s'.prev x ≡ s.prev x)
    → a ≢ f
    → b ≢ f
    → Avoids f cs
    → Linked s a cs b
    → Linked s' a cs b
Linked-same s s' f a [] b n p ha hb h l = (n a ha ∙ l.0, p b hb ∙ l.1)
Linked-same s s' f a (c ∷ cs) b n p ha hb h l =
    ((n a ha ∙ l.0.0, p c.ptr h.0 ∙ l.0.1), Linked-same s s' f c.ptr cs b n p h.0 hb h.1 l.1)

-- The next address is that of no cell.
pub Avoids-fresh : (fresh : Ptr) (cs : List Cell) → Allocated fresh cs → Avoids fresh cs
Avoids-fresh fresh cs h = All-map cs (λ c (lo, hi). (omega arith)) h

grown : (f g : Ptr) (cs : List Cell) → f ≤ g → Allocated f cs → Allocated g cs
grown f g cs e h = All-map cs (λ c (lo, hi). (lo, omega arith)) h

All-both {ℓ κ} :
    {A : Type ℓ} (P Q : A → Type κ) (xs : List A) → All P xs → All Q xs → All (λ x. P x × Q x) xs
All-both P Q [] p q = tt
All-both P Q (x ∷ xs) p q = ((p.0, q.0), All-both P Q xs p.1 q.1)

module _ {s s' : Il} {op v : ℕ} (m : Made s s' op v) where
  Made-Represents : (cs : List Cell) → Represents s cs → Represents s' cs
  Made-Represents cs r = record {
    linked =
        Linked-same s s' s.fresh sentinel cs sentinel m.next_same m.prev_same (ne_of_room r.room)
          (ne_of_room r.room) out r.linked;
    distinct = r.distinct;
    allocated = grown s.fresh s'.fresh cs (omega (arith, m.fresh)) r.allocated;
    room = omega (arith, m.fresh, r.room);
    holds =
        All-map cs (λ c (o, (e, a)). (m.opcode_same c.ptr o ∙ e, m.arg_same c.ptr o ∙ a))
          (All-both _ _ cs out r.holds);
  }
    where
      ne_of_room : sentinel < s.fresh → sentinel ≢ s.fresh
      ne_of_room h = omega arith

      out : Avoids s.fresh cs
      out = Avoids-fresh s.fresh cs r.allocated

length-insert :
    (c : Cell) (pre post : List Cell) → length (pre ++ c ∷ post) ≡ length (pre ++ post) + 1
length-insert c [] post = omega arith
length-insert c (x ∷ pre) post = omega (arith, length-insert c pre post)

pushes-insert :
    ⦃def : OpcodeDef⦄ (c : Cell) (pre post : List Cell)
    → pushes (pre ++ c ∷ post) ≡ pushes (pre ++ post) + stack_pushes c.opcode
pushes-insert c [] post = omega arith
pushes-insert c (x ∷ pre) post = omega (arith, pushes-insert c pre post)

module _ ⦃def : OpcodeDef⦄ {s s' : Il} {op v : ℕ} (m : Made s s' op v) (depth : ℕ)
    (pre post : List Cell) (t : Tracks depth s (pre ++ post)) where
  adds :
      (s'' : Il)
      → s''.n_instrs ≡ s'.n_instrs
      → s''.max_stack ≡ u32 (s'.max_stack + stack_pushes (s'.opcode s.fresh))
      → Represents s'' (pre ++ cell s.fresh (s'.opcode s.fresh) (s'.arg s.fresh) ∷ post)
      → Tracks depth s'' (pre ++ cell s.fresh op v ∷ post)
  adds s'' en em r = record {
    represents = rw (m.opcode_new, m.arg_new) at r;
    counted = omega (arith, en, m.count, t.counted, length-insert (cell s.fresh op v) pre post);
    deep =
        omega (
          arith,
          rw m.opcode_new at em,
          m.depth,
          t.deep,
          pushes-insert (cell s.fresh op v) pre post,
        );
  }

  new_fresh : s.fresh < s'.fresh
  new_fresh = omega (arith, m.fresh)

  out_of_list : Avoids s.fresh (pre ++ post)
  out_of_list = Avoids-fresh s.fresh (pre ++ post) t.represents.allocated

  -- A new node that `InsertBefore` links is one more cell, counted in both counters.
  pub insert_before-Tracks :
      Tracks depth
        (insert_before (head_or sentinel post) s.fresh s')
        (pre ++ cell s.fresh op v ∷ post)
  unfolding insert_before
  insert_before-Tracks = adds (insert_before (head_or sentinel post) s.fresh s') refl refl (
      insert_before_lem s' s.fresh pre post (Made-Represents m (pre ++ post) t.represents)
        out_of_list t.represents.room new_fresh)

  pub insert_after-Tracks :
      Tracks depth
        (insert_after (last_or sentinel pre) s.fresh s')
        (pre ++ cell s.fresh op v ∷ post)
  unfolding insert_after
  insert_after-Tracks = adds (insert_after (last_or sentinel pre) s.fresh s') refl refl (
      insert_after_lem s' s.fresh pre post (Made-Represents m (pre ++ post) t.represents)
        out_of_list t.represents.room new_fresh)
