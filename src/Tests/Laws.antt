-- ===== src/Tests/Laws.antt =====
-- The memory of the sample platform is one that the laws of a linear memory hold of.
use zephyr_vm.Prelude.{◌+◌, refl, ◌++◌, length, take, drop, lt→leb, le→leb}
use zephyr_vm.Host.Memory.Transfer.{MemoryLaws}
use zephyr_vm.Tests.Sample.{sample}

pub sample_laws : MemoryLaws sample
sample_laws = record {
  write_fits = λ m o bs fits. (
    take o m ++ (bs ++ drop (o + length bs) m),
    rw (le→leb (o + length bs) (length m) fits) refl,
    refl,
  );
  write_past = λ m o bs past. (tt, rw (lt→leb (o + length bs) (length m) past) refl);
  read_fits = λ m o n fits. rw (le→leb (o + n) (length m) fits) refl;
}
