-- ===== src/Host/Memory/Transfer.antt =====
-- What `write_to_memory` puts into linear memory, and that a guest reads it back.
use zephyr_vm.Prelude.{
  ℕ, zero, suc, ◌+◌, ◌^◌, ◌≤◌, ◌<◌, ◌≡◌, refl, ap, subst, ◌∙◌, some, List, [], ◌∷◌, ◌++◌, length,
  length-append, take, drop, arith, lt→ltb, lt→leb,
}
use zephyr_vm.Errors.{Returns, Result, ok, err, panic, Error, foreign}
use zephyr_vm.Exec.{continue, ◌>>=◌}
use zephyr_vm.Platform.{Platform}
use zephyr_vm.Host.{Host, Handler, MemoryManager, alive}
use zephyr_vm.Host.Memory.{
  grow_memory_pages_if_needed, checked_add, memory_manager_alive, with_manager, write_to_memory,
  read_segment_from_memory,
}

-- The documented behaviour of wasmi's linear memory: a read or a write that ends within the memory
-- succeeds and is one of that part, and one that ends outside is an error.
pub record MemoryLaws (P : Platform) : Type 0 where
  pub write_fits :
      (m : P.Memory) (o : ℕ) (bs : List ℕ)
      → o + length bs ≤ length (P.bytes m)
      → (m' : P.Memory) × (P.write m o bs ≡ ok m')
        × (P.bytes m' ≡ take o (P.bytes m) ++ (bs ++ drop (o + length bs) (P.bytes m)))
  pub write_past :
      (m : P.Memory) (o : ℕ) (bs : List ℕ)
      → length (P.bytes m) < o + length bs
      → (e : P.Foreign) × (P.write m o bs ≡ err e)
  pub read_fits :
      (m : P.Memory) (o n : ℕ)
      → o + n ≤ length (P.bytes m)
      → P.read m o n ≡ ok (take n (drop o (P.bytes m)))

module _ {ℓ} {A : Type ℓ} where
  drop-take-append : (o : ℕ) (xs r : List A) → o ≤ length xs → drop o (take o xs ++ r) ≡ r
  drop-take-append zero xs r h = refl
  drop-take-append (suc o) [] r h = absurd (omega arith)
  drop-take-append (suc o) (x ∷ xs) r h = drop-take-append o xs r (omega arith)

  take-append : (xs r : List A) → take (length xs) (xs ++ r) ≡ xs
  take-append [] r = refl
  take-append (x ∷ xs) r = ap (λ (t : List A). x ∷ t) (take-append xs r)

  le-length-splice :
      (o : ℕ) (xs bs r : List A) → o ≤ length xs → o + length bs ≤ length (take o xs ++ (bs ++ r))
  le-length-splice zero xs bs r h = rw (length-append bs r) (omega arith)
  le-length-splice (suc o) [] bs r h = absurd (omega arith)
  le-length-splice (suc o) (x ∷ xs) bs r h =
      let rest = le-length-splice o xs bs r (omega arith) in omega arith

module _ {P : Platform} (laws : MemoryLaws P) where
  -- The bytes that were written are read back from where they were written.
  read-write :
      (m : P.Memory) (o : ℕ) (bs : List ℕ)
      → o + length bs ≤ length (P.bytes m)
      → (m' : P.Memory) × (P.write m o bs ≡ ok m') × (P.read m' o (length bs) ≡ ok bs)
  read-write m o bs h =
      let (m', written, spliced) = laws.write_fits m o bs h in
      (
        m',
        written,
        laws.read_fits m' o (length bs)
              (rw spliced (le-length-splice o (P.bytes m) bs _ (omega arith)))
            ∙ rw (spliced, drop-take-append o (P.bytes m) _ (omega arith), take-append) refl,
      )

  -- A segment that is smaller than half of the address space and within the memory is read as
  -- wasmi reads it.
  segment-fits :
      (m : P.Memory) (o n : ℕ) (bs : List ℕ)
      → n < 2 ^ 63
      → P.read m o n ≡ ok bs
      → read_segment_from_memory P m (o, n) ≡ ok bs
  unfolding read_segment_from_memory
  segment-fits m o n bs small e = rw (lt→leb (2 ^ 63) n small, e) refl

  -- On a memory with the laws of `MemoryLaws`, a write with the VM alive, the sum of the manager's
  -- offset and the length below 2 ^ 64, and a memory that, once grown, is at least twice as long as
  -- the contents, of less than 2 ^ 63 bytes: the offset and the size that are returned are both the
  -- length of the contents, the manager's offset moves by that length, and the segment that is
  -- returned reads back as the contents.
  pub write_to_memory-delivers :
      (contents : List ℕ) (h : Host P) (m : MemoryManager P)
      → h.context.vm ≡ some (alive (record { memory_manager = m }))
      → m.offset + length contents < 2 ^ 64
      → length contents < 2 ^ 63
      → length contents + length contents
        ≤ length (P.bytes (grow_memory_pages_if_needed P m.memory (length contents)))
      → (written : P.Memory) × (write_to_memory contents h ≡ (
        ok (length contents, length contents),
        with_manager (record { memory = written; offset = m.offset + length contents }) h,
      ))
        × (read_segment_from_memory P written (length contents, length contents) ≡ ok contents)
  unfolding write_to_memory ◌>>=◌ checked_add
  write_to_memory-delivers contents h m vm fits small room =
      let (written, writes, reads) = read-write _ (length contents) contents room in
      (
        written,
        rw (memory_manager_alive h m vm, lt→ltb _ _ fits, writes) refl,
        segment-fits written _ _ contents small reads,
      )

  -- On a memory with the laws of `MemoryLaws`, with the VM alive and the sum of the manager's
  -- offset and the length below 2 ^ 64, but a memory that, once grown, is shorter than twice the
  -- contents: the write fails with wasmi's error, and the offset has moved all the same.
  pub write_to_memory-moves_on_failure :
      (contents : List ℕ) (h : Host P) (m : MemoryManager P)
      → h.context.vm ≡ some (alive (record { memory_manager = m }))
      → m.offset + length contents < 2 ^ 64
      → length (P.bytes (grow_memory_pages_if_needed P m.memory (length contents)))
        < length contents + length contents
      → (e : P.Foreign) × (write_to_memory contents h ≡ (
        err (foreign e),
        with_manager
            (record {
              memory = grow_memory_pages_if_needed P m.memory (length contents);
              offset = m.offset + length contents;
            })
            h,
      ))
  unfolding write_to_memory ◌>>=◌ checked_add
  write_to_memory-moves_on_failure contents h m vm fits no_room =
      let (e, fails) = laws.write_past _ (length contents) contents no_room in
      (e, rw (memory_manager_alive h m vm, lt→ltb _ _ fits, fails) refl)

module _ {P : Platform} {B : Type 0} (Q : B → Type 0) where
  Returns-continue :
      {A : Type 0} (r : Result A (Error P.Foreign)) (f : A → Handler P B) (h : Host P)
      → ((a : A) (k : Host P) → Returns Q (f a k).0)
      → Returns Q (continue r f h).0
  Returns-continue (ok a) f h q = q a h
  Returns-continue (err e) f h q = tt
  Returns-continue panic f h q = tt

  -- Only the last step decides what is returned.
  Returns-bind :
      {A : Type 0} (m : Handler P A) (f : A → Handler P B)
      → ((a : A) (k : Host P) → Returns Q (f a k).0)
      → (h : Host P) → Returns Q ((m >>= f) h).0
  unfolding ◌>>=◌
  Returns-bind m f q h = Returns-continue (m h).0 f (m h).1 q

-- A write that succeeds returns the length of the contents, as the offset and as the size, whatever
-- was written before: two writes of equally long contents return the same segment.
pub write_to_memory-place :
    {P : Platform} (contents : List ℕ) (h h' : Host P) (place : ℕ × ℕ)
    → write_to_memory contents h ≡ (ok place, h')
    → place ≡ (length contents, length contents)
unfolding write_to_memory
write_to_memory-place {P} contents h h' place e =
    subst (λ (k : Result (ℕ × ℕ) (Error P.Foreign) × Host P). Returns There k.0) e
      (Returns-bind There _ _
        (λ manager. Returns-bind There _ _ λ new_offset. Returns-bind There _ _ λ _.
          Returns-bind There _ _
            λ _. Returns-bind There _ _ λ written. Returns-bind There _ _ λ _ k. refl)
        h)
  where
    There : ℕ × ℕ → Type 0
    There p = p ≡ (length contents, length contents)
