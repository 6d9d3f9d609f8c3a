-- ===== src/Host/Memory.antt =====
-- The host's access to the linear memory: rs-zephyr-env/src/host/memory.rs.
pub mod Transfer
use zephyr_vm.Prelude.{
  ◌≡◌, ℕ, ◌+◌, ◌%◌, ◌^◌, Option, none, some, List, [], ◌∷◌, length, ltb, leb, ◌==◌, if◌then◌else◌,
}
use zephyr_vm.Errors.{
  Result, ok, err, panic, Error, host, foreign, no_context, internal_error, cannot_upgrade_rc,
  arith_error,
}
use zephyr_vm.Exec.{pure, modify, lift, map_err, map_ok, ◌>>=◌, ◌>>◌}
use zephyr_vm.Platform.{Platform}
use zephyr_vm.Host.{Host, Handler, Vm, MemoryManager, Weak, alive, dropped}

abbrev pub keep_free : ℕ
keep_free = 16384

-- What a page of growth is asked for.
abbrev pub growth_pages : ℕ
growth_pages = 100

-- `.filter(|byte| **byte == 0x00_u8).count()`
unfoldable pub zero_bytes : List ℕ → ℕ
zero_bytes [] = 0
zero_bytes (b ∷ bs) = (if b == 0 then 1 else 0) + zero_bytes bs

-- `checked_add` of two `usize`
unfoldable pub checked_add : {F : Type 0} → ℕ → ℕ → Result ℕ (Error F)
checked_add a b =
    if ltb (a + b) (2 ^ 64) then ok (a + b) else err (host (internal_error arith_error))

-- `(pos + contents.len() as u32) as i64`, whose sum is checked.
u32_end : {F : Type 0} → ℕ → ℕ → Result ℕ (Error F)
u32_end pos len = let end = pos + len % 2 ^ 32 in if ltb end (2 ^ 32) then ok end else panic

module _ (P : Platform) where
  -- Free memory is estimated by counting zero bytes.
  unfoldable pub grow_memory_pages_if_needed : P.Memory → ℕ → P.Memory
  grow_memory_pages_if_needed memory buf_len =
      if ltb (zero_bytes (P.bytes memory)) (buf_len + keep_free)
      then P.grow memory growth_pages
      else memory

  -- A buffer of `segment.1 as usize` zeros is made first, which panics from half of the address
  -- space on; then it is filled.
  unfoldable pub read_segment_from_memory : P.Memory → ℕ × ℕ → Result (List ℕ) (Error P.Foreign)
  read_segment_from_memory memory (offset, size) =
      if leb (2 ^ 63) size then panic else map_err foreign (P.read memory offset size)

  -- `.map(|segment| read_segment_from_memory(..)).collect::<Result<Vec<_>, _>>()`
  unfoldable pub read_segments : P.Memory → List (ℕ × ℕ) → Result (List (List ℕ)) (Error P.Foreign)
  read_segments memory [] = ok []
  read_segments memory (segment ∷ segments) =
      let rest = read_segments memory segments in
      elim (read_segment_from_memory memory segment) [
        | ok bytes ↦ map_ok (λ more. bytes ∷ more) rest
        | err e ↦ err e
        | panic ↦ panic
      ]

module _ {P : Platform} where
  -- `context.vm.as_ref().ok_or_else(..)?.upgrade().ok_or_else(..)?`, and its memory manager
  upgraded : Option (Weak (Vm P)) → Result (MemoryManager P) (Error P.Foreign)
  upgraded none = err (host no_context)
  upgraded (some dropped) = err (host (internal_error cannot_upgrade_rc))
  upgraded (some (alive vm)) = ok vm.memory_manager

  unfoldable pub memory_manager : Handler P (MemoryManager P)
  unfolding upgraded
  memory_manager h = (upgraded h.context.vm, h)

  -- `context.vm.as_ref().unwrap().upgrade().unwrap()`
  unwrapped : Option (Weak (Vm P)) → Result P.Memory (Error P.Foreign)
  unwrapped none = panic
  unwrapped (some dropped) = panic
  unwrapped (some (alive vm)) = ok vm.memory_manager.memory

  unfoldable pub get_memory : Handler P P.Memory
  unfolding unwrapped
  get_memory h = (unwrapped h.context.vm, h)

  -- A write through the shared memory manager of the VM.
  abbrev pub with_manager : MemoryManager P → Host P → Host P
  with_manager m h = record h {
    context = record { vm = some (alive (record { memory_manager = m })) };
  }

  -- The offset of the manager is moved first; then memory grows; then the contents are written at
  -- the place that is their own length.
  unfoldable pub write_to_memory : List ℕ → Handler P (ℕ × ℕ)
  write_to_memory contents = do
    manager ← memory_manager
    new_offset ← lift (checked_add manager.offset (length contents))
    modify (with_manager (record manager { offset = new_offset }))
    let grown = grow_memory_pages_if_needed P manager.memory (length contents)
    modify (with_manager (record { memory = grown; offset = new_offset }))
    written ← lift (map_err foreign (P.write grown (length contents) contents))
    modify (with_manager (record { memory = written; offset = new_offset }))
    pure (length contents, length contents)

  unfoldable pub write_to_memory_mut : ℕ → List ℕ → Handler P ℕ
  unfolding u32_end
  write_to_memory_mut pos contents = do
    memory ← get_memory
    manager ← memory_manager
    let grown = grow_memory_pages_if_needed P memory (length contents)
    modify (with_manager (record manager { memory = grown }))
    written ← lift (map_err foreign (P.write grown pos contents))
    modify (with_manager (record manager { memory = written }))
    lift (u32_end pos (length contents))

module _ {P : Platform} (h : Host P) (m : MemoryManager P) where
  -- With the VM in the context and alive, its manager is found.
  pub memory_manager_alive :
      h.context.vm ≡ some (alive (record { memory_manager = m })) → memory_manager h ≡ (ok m, h)
  unfolding memory_manager
  memory_manager_alive e = rw (e, upgraded)

  pub get_memory_alive :
      h.context.vm ≡ some (alive (record { memory_manager = m })) → get_memory h ≡ (ok m.memory, h)
  unfolding get_memory
  get_memory_alive e = rw (e, unwrapped)
