-- ===== src/Agent/Files/Chunks.antt =====
-- `ReadFileChunk` and `WriteFileChunk` of agent/internal/filesystem/fs.go. An open file is its path
-- here, since nothing else moves the file during the call.
pub mod Content
pub mod Partial
mod Tests
use lan_commander.Base.{
  ℕ, ◌+◌, ◌-◌, Bool, true, false, not, ◌&&◌, Option, none, some, List, [], ◌∷◌, if◌then◌else◌, ltb,
  length, ◌==◌, nat_eq,
}
use lan_commander.Base.Int.{ℤ, pos, pos_part, ltb_ℤ, leb_ℤ}
use lan_commander.Base.Exec.{Result, pure, raise, ◌>>=◌, ◌>>◌, refuse_if}
use lan_commander.Base.Text.{Text, is_empty}
use lan_commander.Os.Disk.{
  Bytes, Node, Disk, open_read, open_create, stat, read_at, write_at, truncate,
}
use lan_commander.Agent.Files.Host.{
  Host, invalid_offset, cannot_open, cannot_stat, beyond_file_size, read_error,
  cannot_open_for_writing, cannot_extend, write_error, short_write, Op, default_chunk_size,
  node_size, or_fail, resolve_path,
}

abbrev pub chunk_size_of : ℤ → ℕ
chunk_size_of size = if leb_ℤ size (pos 0) then default_chunk_size else pos_part size

-- Not past the end of the file.
abbrev clamp : ℕ → ℕ → ℕ
clamp size remaining = if ltb remaining size then remaining else size

-- The part from the read on, with the sizes known.
unfoldable pub read_within : Text → ℕ → ℕ → ℕ → Op (Bytes × ℕ)
read_within safe offset size file_size = do
  (buf, broken) ← or_fail (read_at safe offset (clamp size (file_size - offset))) read_error
  refuse_if (broken && is_empty buf) (pure tt) read_error
  pure (buf, file_size)

-- From the stat on. A read at the end of the file is an error, unless the file is empty.
unfoldable pub read_from : Text → ℕ → ℕ → ℕ → Op (Bytes × ℕ)
read_from safe offset size file_size = do
  refuse_if (ltb file_size offset) (pure tt) beyond_file_size
  if offset == file_size
      then (if file_size == 0 then pure ([], file_size) else raise beyond_file_size)
      else read_within safe offset size file_size

unfoldable pub read_file_chunk : Host → Text → ℤ → ℤ → Op (Bytes × ℕ)
read_file_chunk h path offset chunk_size = do
  refuse_if (ltb_ℤ offset (pos 0)) (pure tt) invalid_offset
  safe ← resolve_path h path
  or_fail (open_read safe) cannot_open
  node ← or_fail (stat safe) cannot_stat
  read_from safe (pos_part offset) (chunk_size_of chunk_size) (node_size node)

-- A file that is too short grows by zeros.
unfoldable pub pad : Text → ℕ → Op (Unit {0})
pad safe offset = do
  node ← or_fail (stat safe) cannot_stat
  if ltb (node_size node) offset then or_fail (truncate safe offset) cannot_extend else pure tt

unfoldable pub write_file_chunk : Host → Text → Bytes → ℤ → Op (Unit {0})
write_file_chunk h path chunk offset = do
  refuse_if (ltb_ℤ offset (pos 0)) (pure tt) invalid_offset
  safe ← resolve_path h path
  or_fail (open_create safe (pos_part offset == 0)) cannot_open_for_writing
  if pos_part offset == 0 then pure tt else pad safe (pos_part offset)
  n ← or_fail (write_at safe chunk (pos_part offset)) write_error
  refuse_if (not (n == length chunk)) (pure tt) short_write
