-- ===== src/Client/Logger.antt =====
-- client/logger/logger.go, and `exit` of client/main.go: what is logged goes to the standard output,
-- then into a bufio.Writer in front of the log file. The lines are those that log.Logger makes, one
-- at a time; which writes fail is up to the `Outputs`, and one that fails writes nothing.
pub mod Laws
pub mod Tests
use etcd_cloud_benchmarking.Prelude.{
  ℕ, zero, suc, ◌-◌, Bool, true, false, Option, none, some, List, [], ◌∷◌, ◌++◌, length, take, drop,
  leb, if◌then◌else◌,
}
use etcd_cloud_benchmarking.Prelude.Text.{Text}

-- whether the n-th write to the standard output, and the n-th to the file, succeeds; whether the
-- file can be closed
pub record Outputs : Type 0 where
  pub stdout_ok : ℕ → Bool
  pub write_ok : ℕ → Bool
  pub close_ok : Bool

-- `Logger`: what reached the file, the buffer and its size, whether the writer has met an error,
-- which stays, and how often each output was written
pub record Logger : Type 0 where
  pub file : Text
  pub buffer : Text
  pub size : ℕ
  pub broken : Bool
  pub is_open : Bool
  pub writes : ℕ
  pub stdouts : ℕ

-- whether a call returned nil
pub data Result : Type 0 where
  done failed : Result

abbrev is_empty : Text → Bool
is_empty [] = true
is_empty (x ∷ xs) = false

-- `NewLogger`, if the file can be opened: it is emptied; the size is the default of bufio
unfoldable pub new_logger : Bool → Option Logger
new_logger opens =
    if opens
    then some (record {
      file = [];
      buffer = [];
      size = 4096;
      broken = false;
      is_open = true;
      writes = 0;
      stdouts = 0;
    })
    else none

module _ (o : Outputs) where
  -- bytes that are written to the file at once
  unfoldable pub write_file : Text → Logger → Result × Logger
  write_file p l =
      if o.write_ok l.writes
      then (done, record l { file = l.file ++ p; writes = suc l.writes })
      else (failed, record l { broken = true; writes = suc l.writes })

  -- `Flush`, that of the bufio.Writer
  unfoldable pub flush : Logger → Result × Logger
  flush l =
      if l.broken
      then (failed, l)
      else if is_empty l.buffer
      then (done, l)
      else if o.write_ok l.writes
      then (done, record l { file = l.file ++ l.buffer; buffer = []; writes = suc l.writes })
      else (failed, record l { broken = true; writes = suc l.writes })

  -- bytes for an empty buffer: more than it holds go to the file at once
  unfoldable pub write_rest : Text → Logger → Result × Logger
  write_rest p l = if leb (length p) l.size then (done, record l { buffer = p }) else write_file p l

  -- what follows a flush in the middle of a write
  after_flush : Text → Result × Logger → Result × Logger
  after_flush rest (failed, l) = (failed, l)
  after_flush rest (done, l) = write_rest rest l

  -- `Write` of the bufio.Writer: what does not fit fills the buffer, which is flushed
  unfoldable pub write : Text → Logger → Result × Logger
  unfolding after_flush
  write p l =
      let room = l.size - length l.buffer in
      if l.broken
      then (failed, l)
      else if leb (length p) room
      then (done, record l { buffer = l.buffer ++ p })
      else if is_empty l.buffer
      then write_file p l
      else after_flush (drop room p) (flush (record l { buffer = l.buffer ++ take room p }))

  -- `Printf` and `Println`, whose errors nobody looks at: io.MultiWriter stops at the first output
  -- that fails
  unfoldable pub printf : Text → Logger → Logger
  printf line l =
      let l' : Logger = record l { stdouts = suc l.stdouts } in
      if o.stdout_ok l.stdouts then (write line l').1 else l'

  unfoldable pub log_all : List Text → Logger → Logger
  log_all [] l = l
  log_all (line ∷ lines) l = log_all lines (printf line l)

  close_flushed : Result × Logger → Result × Logger
  close_flushed (failed, l) = (failed, l)
  close_flushed (done, l) = (if o.close_ok then done else failed, record l { is_open = false })

  -- `Close`: the file stays open where the flush fails
  unfoldable pub close : Logger → Result × Logger
  unfolding close_flushed
  close l = close_flushed (flush l)

  -- `exit`: the code of the process, and the logger that it leaves
  unfoldable pub exit : ℕ → Logger → ℕ × Logger
  exit code l = (code, (close l).1)
