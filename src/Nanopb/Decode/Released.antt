-- ===== src/Nanopb/Decode/Released.antt =====
-- ios/Pods/nanopb/pb_decode.c: a field of pointer type that was released is null.
use spar_somnong.Common.{
  ℕ, ◌≡◌, true, false, not, ◌&&◌, ◌==◌, if◌then◌else◌, Outcome, ok, failed, fault, out_of_fuel,
  resume, return, suc,
}
use spar_somnong.Nanopb.Types.{pb_htype, pb_atype}
use spar_somnong.Nanopb.Htype
use spar_somnong.Nanopb.Atype
use spar_somnong.Nanopb.Memory.{Memory, Program, load_pointer, load_size}
use spar_somnong.Nanopb.Iter.{PbFieldIter, current}
use spar_somnong.Nanopb.Iter.Search.{IsTagged}
use spar_somnong.Nanopb.Encode.EndsMessage.{IsBelow}
use spar_somnong.Nanopb.Decode.Done.{Done, done}
use spar_somnong.Nanopb.Decode.ReleaseDone.{pb_release_single_field-Finishes}
use spar_somnong.Common.{All, ◌<◌}
use spar_somnong.Nanopb.Decode.Stored.{load-store}
use spar_somnong.Nanopb.Decode.Heap.{MemoryAction, put_number}
use spar_somnong.Nanopb.Decode.Release.{
  Free, free_entry, release_inside, release_pointer, release_field, pb_release_single_field,
}

-- The pointer at `p` is null, if the call returned.
abbrev pub NullAt : ℕ → Outcome (Unit {0}) × Memory → Type 0
NullAt p (ok a, mem) = load_pointer mem p ≡ 0
NullAt p (failed, mem) = Unit {0}
NullAt p (fault, mem) = Unit {0}
NullAt p (out_of_fuel, mem) = Unit {0}

resume-NullAt :
    {A : Type 0} (p : ℕ) (r : Outcome A × Memory) (f : A → MemoryAction (Unit {0}))
    → ((a : A) (mem : Memory) → NullAt p (f a mem))
    → NullAt p (resume r f)
resume-NullAt p (ok a, mem) f h = h a mem
resume-NullAt p (failed, mem) f h = tt
resume-NullAt p (fault, mem) f h = tt
resume-NullAt p (out_of_fuel, mem) f h = tt

free_entry-NullAt : (free : Free) (p : ℕ) (mem : Memory) → NullAt p (free_entry free p mem)
unfolding free_entry load_pointer
free_entry-NullAt free p mem = load-store (free mem (load_pointer mem p)) 8 p 0

release_pointer-NullAt :
    (free : Free) (it : PbFieldIter) (mem : Memory) → NullAt it.p_data (release_pointer free it mem)
unfolding release_pointer
release_pointer-NullAt free it mem =
    let repeated = pb_htype (current it).type == Htype.repeated in
    resume-NullAt it.p_data _ _ (λ a mem'.
      resume-NullAt it.p_data ((if repeated then put_number 4 it.p_size 0 else return tt) mem') _
        (λ b mem''. free_entry-NullAt free it.p_data mem''))

release_single-NullAt :
    (program : Program) (free : Free) (fuel : ℕ) (it : PbFieldIter) (mem : Memory)
    → (pb_atype (current it).type == Atype.pointer) ≡ true
    → (pb_htype (current it).type == Htype.oneof
        && not (load_size mem it.p_size == (current it).tag))
      ≡ false
    → NullAt it.p_data (pb_release_single_field program free (suc fuel) it mem)
unfolding pb_release_single_field release_field
release_single-NullAt program free fuel it mem pointer held =
    rw (held, pointer)
      (resume-NullAt it.p_data
        (release_inside program free (pb_release_single_field program free fuel) fuel it mem)
        (λ a. release_pointer free it) (λ a mem'. release_pointer-NullAt free it mem'))

-- The call returns, and the pointer at `p` is null afterwards.
pub record Releases (p : ℕ) (r : Outcome (Unit {0}) × Memory) : Type 0 where
  pub after : Memory
  pub returns : r ≡ (ok tt, after)
  pub null : load_pointer after p ≡ 0

Releases-Done : (p : ℕ) (r : Outcome (Unit {0}) × Memory) → Done r → NullAt p r → Releases p r
Releases-Done p r (done a mem e) h = record { after = mem; returns = e; null = rw e at h }

-- Whatever `free` does to the memory, `pb_release_single_field` returns on a field of pointer
-- type that is no member of a union or the member that the union holds, and the field's pointer
-- is null afterwards, for message types that neither contain themselves nor have extension
-- ranges and fuel above their nesting.
pub pb_release_single_field-Releases :
    (program : Program) (free : Free) (rank : ℕ → ℕ)
    (has_tags : (a : ℕ) → IsTagged (program.fields_at a))
    (below : (a : ℕ) → All (IsBelow rank (rank a)) (program.fields_at a)) (fuel r : ℕ)
    (it : PbFieldIter) (mem : Memory)
    → r < suc fuel
    → IsBelow rank r (current it)
    → (pb_atype (current it).type == Atype.pointer) ≡ true
    → (pb_htype (current it).type == Htype.oneof
        && not (load_size mem it.p_size == (current it).tag))
      ≡ false
    → Releases it.p_data (pb_release_single_field program free (suc fuel) it mem)
pb_release_single_field-Releases program free rank has_tags below fuel r it mem enough here pointer
      held =
    Releases-Done it.p_data (pb_release_single_field program free (suc fuel) it mem)
      (pb_release_single_field-Finishes program free rank has_tags below (suc fuel) r enough it here
        mem)
      (release_single-NullAt program free fuel it mem pointer held)
