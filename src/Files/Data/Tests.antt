-- ===== src/Files/Data/Tests.antt =====
-- kernel/file.c: writes to a file of 16 bytes, and the theorem there.
use os_prioritypipes.Prelude.{
  ℕ, ◌%◌, ◌≡◌, refl, Bool, true, false, Option, none, some, List, [], ◌∷◌, arith,
}
use os_prioritypipes.Prelude.Results.{Result, ok, panic, Returns}
use os_prioritypipes.Fs.Inodes.{Dinode, bmap, bmap_addr}
use os_prioritypipes.Fs.Contents.{Memory, writei, write_loop}
use os_prioritypipes.Fs.Contents.Copying.{IsMemory}
use os_prioritypipes.Fs.Tests.{super_block, blocks, directory, blocks-Sound, directory-Owns}
use os_prioritypipes.Files.Data.{Place, write_chunks, write_inode}
use os_prioritypipes.Files.Data.Chunks.{Outcome, write_inode-Outcome}

abbrev file : Dinode
file = record directory { kind = 2 }

-- The file at its start.
abbrev place : Place
place = record { off = 0; ip = file; disk = record { blocks = blocks; inodes = λ (n : ℕ). file } }

abbrev user : Memory
user = record { byte = λ (a : ℕ). a % 256; copied = λ (a k : ℕ). k }

-- A process with no page at all.
abbrev no_page : Memory
no_page = record { byte = λ (a : ℕ). 0; copied = λ (a k : ℕ). 0 }

user-IsMemory : IsMemory user
user-IsMemory = record { small = λ a. omega arith; at_most = λ a k. omega arith }

-- The result, the offset and the size after a write that has ended.
abbrev summary : Result (Option (Option ℕ × Place)) → List ℕ
summary (ok (some (some n, p))) = n ∷ p.off ∷ p.ip.size ∷ []
summary (ok (some (none, p))) = []
summary (ok none) = []
summary panic = []

abbrev is_unfinished : Result (Option (Option ℕ × Place)) → Bool
is_unfinished (ok none) = true
is_unfinished (ok (some r)) = false
is_unfinished panic = false

write_run : summary (write_inode super_block user 1 5 500 4 5 place) ≡ 4 ∷ 4 ∷ 16 ∷ []
unfolding write_chunks writei write_loop bmap bmap_addr
write_run = refl

-- With an address that may not be used the loop goes on.
looping_run : is_unfinished (write_inode super_block no_page 1 5 500 4 20 place) ≡ true
unfolding write_chunks writei write_loop bmap bmap_addr
looping_run = refl

write_inode-Outcome_example :
    Returns
      (Outcome super_block user 5 500 4 1 place)
      (write_inode super_block user 1 5 500 4 5 place)
write_inode-Outcome_example =
    write_inode-Outcome super_block user 1 5 500 4 place (omega arith) user-IsMemory (omega arith)
      (omega arith) (omega arith) blocks-Sound directory-Owns
