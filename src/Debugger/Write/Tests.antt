-- ===== src/Debugger/Write/Tests.antt =====
-- A write to a memory of bytes.
use snu_projects.Base.{
  ℕ, ◌+◌, ◌-◌, ◌≡◌, refl, Bool, ◌&&◌, none, some, leb, ltb, if◌then◌else◌, arith,
}
use snu_projects.Debugger.ByteMemory.{Bytes, byte_of, peek_bytes, poke_bytes, bytes-IsMemory}
use snu_projects.Debugger.Breakpoint.Laws.{IsMemory}
use snu_projects.Debugger.Write.{handle_write}
use snu_projects.Debugger.Write.Laws.{handle_write_lem}

abbrev memory : Bytes
memory a = a + 7

abbrev buffer : ℕ → ℕ
buffer i = 170

-- The words at 64 to 79 are mapped: eleven bytes at 64 need the words at 64 and 72, and reads
-- behind the bytes that end at 79.
abbrev page : ℕ → Bool
page a = leb 64 a && ltb a 80

page-IsMemory : IsMemory byte_of peek_bytes poke_bytes page
page-IsMemory = record {
  reads = λ m a i h lt. bytes-IsMemory.reads m a i refl lt;
  writes = λ m a v h. bytes-IsMemory.writes m a v refl;
}

handle_write_lem_example :
    (m' : Bytes) × (handle_write peek_bytes poke_bytes 64 buffer 1024 11 memory ≡ some m')
    × ((x : ℕ)
        → byte_of m' x
          ≡ (if leb 64 x && ltb x (64 + 11) then buffer (x - 64) else byte_of memory x))
handle_write_lem_example =
    handle_write_lem byte_of peek_bytes poke_bytes page page-IsMemory 64 buffer 1024 11 memory
      (λ j. omega arith) (omega arith) (omega arith) (omega arith) (λ j lt. ground arith)
      (λ a le lt. ground arith)

-- A length that takes one word more than `num` has.
too_long : handle_write peek_bytes poke_bytes 64 buffer 4096 2048 memory ≡ none
unfolding handle_write
too_long = refl
