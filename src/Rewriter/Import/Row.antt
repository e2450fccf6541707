-- ===== src/Rewriter/Import/Row.antt =====
-- The nodes of the list that `ImportIL` of ProfilerHost/ILRewriter.cpp builds stand one behind the other in
-- the order of their addresses, and a new one changes no old one.
use clr_profiling.Base.{ℕ, ◌+◌, ◌%◌, ◌^◌, ◌≤◌, ◌<◌, ◌≡◌, refl, ◌∙◌, arith}
use clr_profiling.Rewriter.Opcode.{OpcodeDef, switch_arg}
use clr_profiling.Rewriter.Memory.{
  Ptr, sentinel, Il, new_il_instr, set_opcode, set_arg64, set_arg32, set_arg16, set_arg8,
  insert_before,
}
use clr_profiling.Rewriter.Import.{append_instr, append_target}

pub record Row (s : Il) : Type 0 where
  pub room : 2 ≤ s.fresh
  pub ahead : (x : Ptr) → 1 ≤ x → x + 1 < s.fresh → s.next x ≡ x + 1
  pub last : (x : Ptr) → x + 1 ≡ s.fresh → s.next x ≡ sentinel
  pub back : s.prev sentinel + 1 ≡ s.fresh

-- The nodes below `p` keep what they hold.
pub record Keeps (p : Ptr) (s s' : Il) : Type 0 where
  pub opcode : (x : Ptr) → x < p → s'.opcode x ≡ s.opcode x
  pub arg : (x : Ptr) → x < p → s'.arg x ≡ s.arg x

pub Keeps-trans : (p : Ptr) (s t u : Il) → Keeps p s t → Keeps p t u → Keeps p s u
Keeps-trans p s t u a b = record {
  opcode = λ x h. b.opcode x h ∙ a.opcode x h;
  arg = λ x h. b.arg x h ∙ a.arg x h;
}

pub Keeps-less : (p q : Ptr) (s t : Il) → q ≤ p → Keeps p s t → Keeps q s t
Keeps-less p q s t h a = record {
  opcode = λ x l. a.opcode x (omega arith);
  arg = λ x l. a.arg x (omega arith);
}

module _ ⦃def : OpcodeDef⦄ (s : Il) (r : Row s) where
  insert-Row :
      (t : Il)
      → t.fresh ≡ s.fresh + 1
      → ((x : Ptr) → x < s.fresh → t.next x ≡ s.next x)
      → ((x : Ptr) → x < s.fresh → t.prev x ≡ s.prev x)
      → Row (insert_before sentinel s.fresh t)
  unfolding insert_before
  insert-Row t f n p =
      let before : t.prev sentinel + 1 ≡ s.fresh =
        omega (arith, r.back, p sentinel (omega (arith, r.room))) in
      record {
        room = omega (arith, r.room, f);
        ahead = λ x lo hi.
            let old : t.next x ≡ s.next x = n x (omega (arith, f)) in
            ground (arith, r.room, before, old, r.ahead x lo);
        last = λ x e. let same : x ≡ s.fresh = omega (arith, e, f) in ground (arith, r.room, same);
        back = ground (arith, r.room, f);
      }

-- One node more, which holds `op` and `v`.
pub record Added (s s' : Il) (op v : ℕ) : Type 0 where
  pub row : Row s'
  pub fresh : s'.fresh ≡ s.fresh + 1
  pub opcode : s'.opcode s.fresh ≡ op
  pub arg : s'.arg s.fresh ≡ v
  pub keeps : Keeps s.fresh s s'

-- The node `p` holds `v`, and no other changes.
pub record Written (p v : ℕ) (s s' : Il) : Type 0 where
  pub row : Row s → Row s'
  pub fresh : s'.fresh ≡ s.fresh
  pub opcode : s'.opcode p ≡ s.opcode p
  pub arg : s'.arg p ≡ v
  pub keeps : Keeps p s s'

module _ ⦃def : OpcodeDef⦄ (s : Il) (r : Row s) where
  pub append_instr-Added : (op : ℕ) → Added s (append_instr op s) op 0
  unfolding append_instr insert_before new_il_instr set_opcode
  append_instr-Added op = record {
    row =
        insert-Row s r (set_opcode s.fresh op (new_il_instr s)) refl (λ x h. ground arith)
          (λ x h. ground arith);
    fresh = refl;
    opcode = ground arith;
    arg = ground arith;
    keeps = record { opcode = λ x h. ground arith; arg = λ x h. ground arith };
  }

  pub append_target-Added : (v : ℕ) → Added s (append_target v s) switch_arg (v % 2 ^ 32)
  unfolding append_target insert_before new_il_instr set_opcode set_arg32
  append_target-Added v = record {
    row =
        insert-Row s r (set_arg32 s.fresh v (set_opcode s.fresh switch_arg (new_il_instr s))) refl
          (λ x h. ground arith) (λ x h. ground arith);
    fresh = refl;
    opcode = ground arith;
    arg = ground arith;
    keeps = record { opcode = λ x h. ground arith; arg = λ x h. ground arith };
  }

pub same-Row :
    (s s' : Il) → s'.next ≡ s.next → s'.prev ≡ s.prev → s'.fresh ≡ s.fresh → Row s → Row s'
same-Row s s' n p f r = record {
  room = rw f r.room;
  ahead = λ x lo hi. rw n (r.ahead x lo (rw f at hi));
  last = λ x e. rw n (r.last x (e ∙ f));
  back = rw (p, f) r.back;
}

module _ (p v : ℕ) (s : Il) (zero_ : s.arg p ≡ 0) where
  pub set_arg8-Written : Written p (v % 2 ^ 8) s (set_arg8 p v s)
  unfolding set_arg8
  set_arg8-Written = record {
    row = same-Row s (set_arg8 p v s) refl refl refl;
    fresh = refl;
    opcode = refl;
    arg = ground arith;
    keeps = record { opcode = λ x h. refl; arg = λ x h. ground arith };
  }

  pub set_arg16-Written : Written p (v % 2 ^ 16) s (set_arg16 p v s)
  unfolding set_arg16
  set_arg16-Written = record {
    row = same-Row s (set_arg16 p v s) refl refl refl;
    fresh = refl;
    opcode = refl;
    arg = ground arith;
    keeps = record { opcode = λ x h. refl; arg = λ x h. ground arith };
  }

  pub set_arg32-Written : Written p (v % 2 ^ 32) s (set_arg32 p v s)
  unfolding set_arg32
  set_arg32-Written = record {
    row = same-Row s (set_arg32 p v s) refl refl refl;
    fresh = refl;
    opcode = refl;
    arg = ground arith;
    keeps = record { opcode = λ x h. refl; arg = λ x h. ground arith };
  }

pub set_arg64-Written : (p v : ℕ) (s : Il) → Written p (v % 2 ^ 64) s (set_arg64 p v s)
unfolding set_arg64
set_arg64-Written p v s = record {
  row = same-Row s (set_arg64 p v s) refl refl refl;
  fresh = refl;
  opcode = refl;
  arg = ground arith;
  keeps = record { opcode = λ x h. refl; arg = λ x h. ground arith };
}
