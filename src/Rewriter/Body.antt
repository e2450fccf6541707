-- ===== src/Rewriter/Body.antt =====
-- The last part of `Export` of ProfilerHost/ILRewriter.cpp: the header, the code and the clauses
-- in the memory that `AllocateILMemory` returns, and the call that sets them.
pub mod Room
use Prim.Native.Nat.{bit_or}
use clr_profiling.Base.{
  ℕ, zero, suc, ◌+◌, ◌-◌, ◌*◌, ◌%◌, ◌/◌, ◌^◌, Bool, true, false, Option, none, some, List, [], ◌∷◌,
  length, ◌==◌, leb, if◌then◌else◌,
}
use clr_profiling.Base.Words.{u32}
use clr_profiling.Base.Hresult.{Hresult, e_fail, e_outofmemory, failed, Run, ok, fails, ◌>>=◌, ◌>>◌}
use clr_profiling.Rewriter.Memory.{Il}
use clr_profiling.Rewriter.Export.{Buffer}
use clr_profiling.Rewriter.Corhdr.{Corhdr}
use clr_profiling.Rewriter.Clause.{FatClause, EhClause, export_eh}

-- The bytes that the copy of the code takes from the output buffer.
unfoldable pub copy_bytes : ℕ → ℕ → Buffer → List ℕ
copy_bytes zero at_ buf = []
copy_bytes (suc n) at_ buf = buf at_ ∷ copy_bytes n (at_ + 1) buf

-- `IMAGE_COR_ILMETHOD_FAT`
pub record FatHeader : Type 0 where
  pub flags : ℕ
  pub size : ℕ
  pub max_stack : ℕ
  pub code_size : ℕ
  pub local_sig : ℕ

-- `IMAGE_COR_ILMETHOD_SECT_FAT` and the clauses behind it.
pub record Section : Type 0 where
  pub kind : ℕ
  pub data_size : ℕ
  pub clauses : List FatClause

-- What is written to the allocated memory: a tiny header and the code, or a fat header, the code
-- and at the next multiple of four the section of the clauses.
pub data Body : Type 0 where
  tiny : ℕ → List ℕ → Body
  fat : FatHeader → List ℕ → Option Section → Body

-- The fields of `ILRewriter` besides the list that `Export` reads.
pub record Method : Type 0 where
  pub local_sig : ℕ
  pub flags : ℕ
  pub generate_tiny : Bool
  pub eh : List EhClause

-- `(offset + 3) & ~3`
unfoldable pub aligned : ℕ → ℕ
aligned offset = u32 (offset + 3) - u32 (offset + 3) % 4

-- The calls that leave the component: whether a rejit supplies the control, and what the
-- allocator and the two `SetILFunctionBody` answer.
pub record Services : Type 0 where
  pub rejit : Bool
  pub allocator : Hresult
  pub has_memory : ℕ → Bool
  pub set_rejit_body : ℕ → Body → Hresult
  pub set_body : Body → Hresult

-- `IfFailRet`
unfoldable pub fail_ret : Hresult → Run (Unit {0})
fail_ret hr = if failed hr then fails hr else ok tt

-- `AllocateILMemory` and the `IfNullRet` around it.
unfoldable pub allocate_il_memory : Services → ℕ → Run (Unit {0})
allocate_il_memory env size =
    if env.rejit
    then (if env.has_memory size then ok tt else fails e_outofmemory)
    else if failed env.allocator
    then fails e_outofmemory
    else if env.has_memory size
    then ok tt
    else fails e_outofmemory

-- `ILRewriter::SetILFunctionBody`
unfoldable pub set_il_function_body : Services → ℕ → Body → Run (Unit {0})
unfolding fail_ret
set_il_function_body env size body =
    if env.rejit then fail_ret (env.set_rejit_body size body) else fail_ret (env.set_body body)

module _ ⦃hdr : Corhdr⦄ where
  open hdr use {
    tiny_format, fat_format, more_sects, size_tiny, size_fat, size_sect_fat, size_clause_fat,
  }

  unfoldable pub section_size : ℕ → ℕ
  section_size zero = 0
  section_size (suc n) = size_sect_fat + size_clause_fat * suc n

  -- `totalSize` of the fat form.
  unfoldable pub fat_size : ℕ → ℕ → ℕ
  unfolding aligned section_size
  fat_size code_size n_eh = u32 (size_fat + aligned code_size + section_size n_eh)

  -- `DataSize` has 24 bits.
  unfoldable pub fat_section : List FatClause → Option Section
  fat_section [] = none
  fat_section (c ∷ cs) = some (record {
    kind = bit_or hdr.sect_eh_table hdr.sect_fat_format;
    data_size = u32 (size_sect_fat + size_clause_fat * length (c ∷ cs)) % 2 ^ 24;
    clauses = c ∷ cs;
  })

  -- The fields of the header have 12, 4, 16, 32 and 32 bits.
  unfoldable pub fat_header : Method → ℕ → ℕ → FatHeader
  fat_header m max_stack code_size = record {
    flags =
        bit_or (bit_or m.flags (if length m.eh == 0 then 0 else more_sects)) fat_format % 2 ^ 12;
    size = size_fat / 4 % 2 ^ 4;
    max_stack = max_stack % 2 ^ 16;
    code_size = u32 code_size;
    local_sig = u32 m.local_sig;
  }

  -- The body of a method, and the size that is allocated for it.
  unfoldable pub make_body : Services → Method → Il → Buffer → ℕ → Run (ℕ × Body)
  unfolding allocate_il_memory fat_header fat_section
  make_body env m s buf code_size =
      let tiny_size = u32 (size_tiny + code_size) in
      let total = fat_size code_size (length m.eh) in
      if m.generate_tiny
      then (if leb 64 code_size
          then fails e_fail
          else allocate_il_memory env tiny_size
            >> ok (
              tiny_size,
              tiny (bit_or tiny_format (code_size * 4) % 256) (copy_bytes code_size 0 buf),
            ))
      else allocate_il_memory env total >>= λ _. export_eh s m.eh >>= λ clauses. ok (
        total,
        fat (fat_header m s.max_stack code_size) (copy_bytes code_size 0 buf) (fat_section clauses),
      )

  -- From the end of the two passes to the end of `Export`: what was set.
  unfoldable pub export_body : Services → Method → Il → Buffer → ℕ → Run Body
  unfolding make_body set_il_function_body
  export_body env m s buf code_size = make_body env m s buf code_size >>= λ (size, body).
      set_il_function_body env size body >> ok body
