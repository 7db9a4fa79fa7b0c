-- ===== src/Worker/Runner.antt =====
-- worker/python_runner.rs, on Unix: what is run, and what is made of how it ends. The temporary file
-- and the process are in `Host`; the decimal texts of numbers and the time taken are arguments.
pub mod Literal
use serverust_less.Prelude.{
  ℕ, suc, ◌*◌, ◌^◌, ◌/◌, ◌%◌, Bool, true, false, not, ◌&&◌, ◌||◌, String, Option, none, some, ℤ,
  pos, negsuc, List, [], ◌∷◌, any, nat_eq, str_append, if◌then◌else◌,
}
use serverust_less.Model.Text.{contains_text, replace_from}
use serverust_less.Worker.{ExecutionResult}

-- How the wait for the process ends: with an exit code, which a process killed by a signal lacks,
-- with an error, or at the time limit.
pub data Waited : Type 0 where
  exited : Option ℤ → Waited
  wait_failed : Waited
  timed_out : Waited

-- What becomes of a command: it cannot be started, or it has a process id and ends with its output.
pub data Spawned : Type 0 where
  spawn_failed : String → Spawned
  spawned : Option ℕ → Waited → String → String → Spawned

-- The temporary file with the code: its path, or the error.
pub data CodeFile : Type 0 where
  written : String → CodeFile
  write_failed : String → CodeFile

pub record Host : Type 0 where
  pub python_executable : String
  pub exists : String → Bool
  pub code_file : String → CodeFile
  pub spawn : List String → ℕ → Spawned

-- The input as the text of a Python literal in triple quotes.
unfoldable pub escape_input : String → String
unfolding replace_from
escape_input input = replace_from 2 "'''" "\\'\\'\\'" 0 input

abbrev pub concat : List String → String
concat [] = ""
concat (part ∷ parts) = str_append part (concat parts)

abbrev pub full_code : Option String → String → String
full_code none code = code
full_code (some input) code = concat (
    "\nimport json\nimport sys\n\n# Input data\nINPUT_DATA = json.loads('''"
    ∷ escape_input input
    ∷ "''')\n\n# User code\n"
    ∷ code
    ∷ "\n"
    ∷ [])

abbrev pub python_path : String → String
python_path venv_path = str_append venv_path "/bin/python"

abbrev pub chosen_python_path : Host → String → String
chosen_python_path host venv_path =
    if host.exists (python_path venv_path) then python_path venv_path else host.python_executable

-- The limit of a u64 of megabytes in kilobytes.
abbrev pub limit_kb : ℕ → ℕ
limit_kb memory_limit_mb = (memory_limit_mb * 1024 * 1024) % 2 ^ 64 / 1024

abbrev pub bash_command : (ℕ → String) → String → String → ℕ → List String
bash_command decimal python code_path memory_limit_mb =
    let limit = decimal (limit_kb memory_limit_mb) in
    "/bin/bash"
    ∷ "-c"
    ∷ concat (
        "ulimit -v " ∷ limit ∷ " 2>/dev/null; ulimit -d " ∷ limit ∷ " 2>/dev/null; exec \"" ∷ python
        ∷ "\" \"" ∷ code_path ∷ "\"" ∷ [])
    ∷ []

abbrev pub memory_indicators : List String
memory_indicators =
    "MemoryError" ∷ "Cannot allocate memory" ∷ "Out of memory" ∷ "memory allocation failed"
    ∷ "std::bad_alloc" ∷ []

abbrev is_code : ℤ → Option ℤ → Bool
is_code code none = false
is_code (pos n) (some (pos m)) = nat_eq n m
is_code (pos n) (some (negsuc m)) = false
is_code (negsuc n) (some (pos m)) = false
is_code (negsuc n) (some (negsuc m)) = nat_eq n m

-- -9, or 137.
unfoldable pub check_memory_exceeded : Option ℤ → String → Bool
unfolding contains_text
check_memory_exceeded exit_code stderr =
    is_code (negsuc 8) exit_code
    || is_code (pos 137) exit_code
    || any (contains_text stderr) memory_indicators

abbrev exit_code_of : Waited → Option ℤ
exit_code_of (exited code) = code
exit_code_of wait_failed = none
exit_code_of timed_out = none

abbrev is_timeout : Waited → Bool
is_timeout (exited code) = false
is_timeout wait_failed = false
is_timeout timed_out = true

-- `{:?}` of an exit code.
abbrev debug_code : (ℕ → String) → Option ℤ → String
debug_code decimal none = "None"
debug_code decimal (some (pos n)) = concat ("Some(" ∷ decimal n ∷ ")" ∷ [])
debug_code decimal (some (negsuc n)) = concat ("Some(-" ∷ decimal (suc n) ∷ ")" ∷ [])

module _ (decimal : ℕ → String) (duration_ms : ℤ) where
  unfoldable pub judge : Waited → String → String → ExecutionResult
  unfolding check_memory_exceeded
  judge waited stdout stderr =
      let exit_code = exit_code_of waited in
      let memory_exceeded = check_memory_exceeded exit_code stderr in
      record {
        success = not (is_timeout waited) && not memory_exceeded && is_code (pos 0) exit_code;
        stdout = stdout;
        stderr = stderr;
        exit_code = debug_code decimal exit_code;
        duration_ms = duration_ms;
        timed_out = is_timeout waited;
        memory_exceeded = memory_exceeded;
      }

  abbrev pub error_result : String → ExecutionResult
  error_result error = record {
    success = false;
    stdout = "";
    stderr = error;
    exit_code = "None";
    duration_ms = duration_ms;
    timed_out = false;
    memory_exceeded = false;
  }

  -- The process id that is sent, and the result.
  abbrev pub reported : Spawned → Option ℕ × ExecutionResult
  reported (spawn_failed error) =
      (none, error_result (str_append "Failed to spawn Python process: " error))
  reported (spawned pid waited stdout stderr) = (pid, judge waited stdout stderr)

  abbrev spawn_with_limits : Host → String → ℕ → ℕ → CodeFile → Option ℕ × ExecutionResult
  spawn_with_limits host python timeout_seconds memory_limit_mb (write_failed error) =
      (none, error_result error)
  spawn_with_limits host python timeout_seconds memory_limit_mb (written path) =
      reported (host.spawn (bash_command decimal python path memory_limit_mb) timeout_seconds)

  unfoldable pub execute_with_pid :
      Host → String → String → Option String → ℕ → ℕ → Option ℕ × ExecutionResult
  unfolding escape_input judge
  execute_with_pid host venv_path code input_data timeout_seconds memory_limit_mb =
      spawn_with_limits host (chosen_python_path host venv_path) timeout_seconds memory_limit_mb
        (host.code_file (full_code input_data code))

  -- Nobody is told the process id.
  unfoldable pub execute : Host → String → String → Option String → ℕ → ℕ → ExecutionResult
  unfolding execute_with_pid
  execute host venv_path code input_data timeout_seconds memory_limit_mb =
      (execute_with_pid host venv_path code input_data timeout_seconds memory_limit_mb).1
