-- ===== src/Core/Config.antt =====
-- core/config.h and config.cpp: `Config`, read from a file and from the command line.
pub mod Ranges
use io_t_delivery_fleet_moni.Prelude.{
  ℕ, suc, ◌+◌, ◌*◌, List, [], ◌∷◌, ◌++◌, Option, none, some, Bool, true, false, not, ◌&&◌, ◌||◌,
  ltb, leb, ◌==◌, if◌then◌else◌, take, drop, codes, text_eq, text_keys, value_at,
}
use io_t_delivery_fleet_moni.Http.Text.{find, is_empty}

-- `int`
pub data ℤ : Type 0 where
  pos : ℕ → ℤ
  negsuc : ℕ → ℤ

-- The doubles, and what an input stream extracts: the value with the text behind it, or `none`
-- when the extraction fails.
pub record Streams : Type 1 where
  pub Double : Type 0
  pub is_finite : Double → Bool
  pub less : Double → Double → Bool
  pub zero_double : Double
  pub one_double : Double
  pub five : Double
  pub ten : Double
  pub extract_int : List ℕ → Option (ℤ × List ℕ)
  pub extract_u32 : List ℕ → Option (ℕ × List ℕ)
  pub extract_u64 : List ℕ → Option (ℕ × List ℕ)
  pub extract_double : List ℕ → Option (Double × List ℕ)

pub data ConfigError : Type 0 where
  invalid_value unknown_key missing_file malformed_line empty_entry : ConfigError
  missing_path unknown_argument missing_value : ConfigError
  bad_port bad_backlog bad_epoll_worker_count bad_thread_pool_size bad_task_queue_capacity :
      ConfigError
  bad_rate_limit_capacity bad_refill_rate bad_storage_directory : ConfigError
  bad_segment_size bad_recent_capacity : ConfigError

-- A value, or what is thrown.
pub data Outcome {ℓ} (A : Type ℓ) : Type ℓ where
  returned : A → Outcome A
  thrown : ConfigError → Outcome A

abbrev pub then_do {ℓ κ} : {A : Type ℓ} {B : Type κ} → Outcome A → (A → Outcome B) → Outcome B
then_do (returned a) k = k a
then_do (thrown e) k = thrown e

-- " \t\r\n"
abbrev pub is_trimmed : ℕ → Bool
is_trimmed c = c == 32 || (c == 9 || (c == 13 || c == 10))

-- From `find_first_not_of` on.
unfoldable pub skip_blanks : List ℕ → List ℕ
skip_blanks [] = []
skip_blanks (c ∷ value) = let rest = skip_blanks value in if is_trimmed c then rest else c ∷ value

-- Up to `find_last_not_of`.
unfoldable pub drop_blanks : List ℕ → List ℕ
drop_blanks [] = []
drop_blanks (c ∷ value) =
    let rest = drop_blanks value in if is_trimmed c && is_empty rest then [] else c ∷ rest

unfoldable pub trim : List ℕ → List ℕ
trim value = drop_blanks (skip_blanks value)

-- `isspace` in the C locale, which `>>` skips before a character.
abbrev pub is_space : ℕ → Bool
is_space c = c == 32 || (leb 9 c && leb c 13)

pub all_spaces : List ℕ → Bool
all_spaces [] = true
all_spaces (c ∷ text) = is_space c && all_spaces text

-- Nothing but white space may follow the number.
abbrev pub complete {ℓ} : {A : Type ℓ} → Option (A × List ℕ) → Outcome A
complete none = thrown invalid_value
complete (some (parsed, extra)) = if all_spaces extra then returned parsed else thrown invalid_value

pub parse_number {ℓ} : {A : Type ℓ} → (List ℕ → Option (A × List ℕ)) → List ℕ → Outcome A
parse_number extract value = complete (extract value)

-- The lines that `getline` reads: an empty line at the end of the file is none.
abbrev pub before_line : ℕ → List (List ℕ) → List (List ℕ)
before_line c [] = (c ∷ []) ∷ []
before_line c (line ∷ lines) = (c ∷ line) ∷ lines

pub lines_of : List ℕ → List (List ℕ)
lines_of [] = []
lines_of (c ∷ text) = let rest = lines_of text in if c == 10 then [] ∷ rest else before_line c rest

abbrev pub until : Option ℕ → List ℕ → List ℕ
until none line = line
until (some index) line = take index line

abbrev pub options : List (List ℕ × List ℕ)
options =
    (codes "--port", codes "port")
    ∷ (codes "--backlog", codes "backlog")
    ∷ (codes "--epoll-workers", codes "epoll_worker_count")
    ∷ (codes "--pool-threads", codes "thread_pool_size")
    ∷ (codes "--queue-capacity", codes "task_queue_capacity")
    ∷ (codes "--log-path", codes "log_path")
    ∷ (codes "--rate-limit-capacity", codes "rate_limit_capacity")
    ∷ (codes "--rate-limit-refill-rate", codes "rate_limit_refill_rate")
    ∷ (codes "--storage-directory", codes "storage_directory")
    ∷ (codes "--storage-segment-size", codes "storage_segment_size")
    ∷ (codes "--recent-capacity", codes "recent_message_capacity")
    ∷ []

module _ (streams : Streams) where
  pub record Config : Type 0 where
    pub port : ℤ
    pub backlog : ℤ
    pub epoll_worker_count : ℕ
    pub thread_pool_size : ℕ
    pub task_queue_capacity : ℕ
    pub log_path : List ℕ
    pub rate_limit_capacity : streams.Double
    pub rate_limit_refill_rate : streams.Double
    pub storage_directory : List ℕ
    pub storage_segment_size : ℕ
    pub recent_message_capacity : ℕ

  abbrev pub default_config : Config
  default_config = record {
    port = pos 8080;
    backlog = pos 128;
    epoll_worker_count = 0;
    thread_pool_size = 4;
    task_queue_capacity = 1024;
    log_path = [];
    rate_limit_capacity = streams.ten;
    rate_limit_refill_rate = streams.five;
    storage_directory = codes "data/log";
    storage_segment_size = 67108864;
    recent_message_capacity = 1024;
  }

  unfoldable pub apply : Config → List ℕ → List ℕ → Outcome Config
  apply config key value =
      if text_eq key (codes "port")
      then then_do (parse_number streams.extract_int value)
          (λ n. returned (record config { port = n }))
      else if text_eq key (codes "backlog")
      then then_do (parse_number streams.extract_int value)
          (λ n. returned (record config { backlog = n }))
      else if text_eq key (codes "epoll_worker_count")
      then then_do (parse_number streams.extract_u32 value)
          (λ n. returned (record config { epoll_worker_count = n }))
      else if text_eq key (codes "thread_pool_size")
      then then_do (parse_number streams.extract_u32 value)
          (λ n. returned (record config { thread_pool_size = n }))
      else if text_eq key (codes "task_queue_capacity")
      then then_do (parse_number streams.extract_u64 value)
          (λ n. returned (record config { task_queue_capacity = n }))
      else if text_eq key (codes "log_path")
      then returned (record config { log_path = value })
      else if text_eq key (codes "rate_limit_capacity")
      then then_do (parse_number streams.extract_double value)
          (λ n. returned (record config { rate_limit_capacity = n }))
      else if text_eq key (codes "rate_limit_refill_rate")
      then then_do (parse_number streams.extract_double value)
          (λ n. returned (record config { rate_limit_refill_rate = n }))
      else if text_eq key (codes "storage_directory")
      then returned (record config { storage_directory = value })
      else if text_eq key (codes "storage_segment_size")
      then then_do (parse_number streams.extract_u64 value)
          (λ n. returned (record config { storage_segment_size = n }))
      else if text_eq key (codes "recent_message_capacity")
      then then_do (parse_number streams.extract_u64 value)
          (λ n. returned (record config { recent_message_capacity = n }))
      else thrown unknown_key

  abbrev pub in_range : ℕ → ℕ → ℤ → Bool
  in_range low high (pos n) = leb low n && leb n high
  in_range low high (negsuc n) = false

  abbrev pub is_positive : ℤ → Bool
  is_positive (pos n) = leb 1 n
  is_positive (negsuc n) = false

  unfoldable pub validate : Config → Outcome Config
  validate config =
      if not (in_range 1 65535 config.port)
      then thrown bad_port
      else if not (is_positive config.backlog)
      then thrown bad_backlog
      else if ltb 256 config.epoll_worker_count
      then thrown bad_epoll_worker_count
      else if ltb config.thread_pool_size 1 || ltb 256 config.thread_pool_size
      then thrown bad_thread_pool_size
      else if ltb config.task_queue_capacity 1 || ltb 1048576 config.task_queue_capacity
      then thrown bad_task_queue_capacity
      else if not (streams.is_finite config.rate_limit_capacity)
          || streams.less config.rate_limit_capacity streams.one_double
      then thrown bad_rate_limit_capacity
      else if not (streams.is_finite config.rate_limit_refill_rate)
          || streams.less config.rate_limit_refill_rate streams.zero_double
      then thrown bad_refill_rate
      else if is_empty config.storage_directory
      then thrown bad_storage_directory
      else if ltb config.storage_segment_size 73 || ltb 1073741824 config.storage_segment_size
      then thrown bad_segment_size
      else if config.recent_message_capacity == 0 || ltb 1048576 config.recent_message_capacity
      then thrown bad_recent_capacity
      else returned config

  -- A line without its comment; `none` if it is not of the form key=value.
  abbrev pub apply_entry : Config → List ℕ → List ℕ → Outcome Config
  apply_entry config key value =
      if is_empty key || is_empty value then thrown empty_entry else apply config key value

  abbrev pub apply_line : Config → List ℕ → Option ℕ → Outcome Config
  apply_line config line none = thrown malformed_line
  apply_line config line (some separator) =
      apply_entry config (trim (take separator line)) (trim (drop (separator + 1) line))

  unfoldable pub read_line : Config → List ℕ → Outcome Config
  read_line config text =
      let line = trim (until (find (35 ∷ []) text) text) in
      if is_empty line then returned config else apply_line config line (find (61 ∷ []) line)

  unfoldable pub read_lines : List (List ℕ) → Config → Outcome Config
  read_lines [] config = returned config
  read_lines (line ∷ lines) config = then_do (read_line config line) (read_lines lines)

  -- The content of a file; `none` if it cannot be opened.
  unfoldable pub load_file : Option (List ℕ) → Outcome Config
  load_file none = thrown missing_file
  load_file (some content) = then_do (read_lines (lines_of content) default_config) validate

  -- The first loop over the arguments: the path of the last `--config`.
  unfoldable pub config_path : List (List ℕ) → List ℕ → Outcome (List ℕ)
  config_path [] path = returned path
  config_path (option ∷ []) path =
      if text_eq option (codes "--config") then thrown missing_path else returned path
  config_path (option ∷ (argument ∷ arguments)) path =
      let named = config_path arguments argument in
      let other = config_path (argument ∷ arguments) path in
      if text_eq option (codes "--config") then named else other

  abbrev pub apply_option : Option (List ℕ) → Config → List ℕ → Outcome Config
  apply_option none config value = thrown unknown_argument
  apply_option (some key) config value = apply config key value

  abbrev pub lonely_option : Option (List ℕ) → Outcome Config
  lonely_option none = thrown unknown_argument
  lonely_option (some key) = thrown missing_value

  -- The second loop; the first has found an argument behind each `--config`.
  unfoldable pub apply_arguments : List (List ℕ) → Config → Outcome Config
  apply_arguments [] config = returned config
  apply_arguments (option ∷ []) config =
      if text_eq option (codes "--config")
      then returned config
      else lonely_option (value_at option options)
  apply_arguments (option ∷ (argument ∷ arguments)) config =
      if text_eq option (codes "--config")
      then apply_arguments arguments config
      else then_do (apply_option (value_at option options) config argument)
          (apply_arguments arguments)

  abbrev pub initial_config : (List ℕ → Option (List ℕ)) → List ℕ → Outcome Config
  initial_config files path =
      if is_empty path then returned default_config else load_file (files path)

  -- The arguments behind the name of the program; `files` is the content of each file.
  unfoldable pub from_args : (List ℕ → Option (List ℕ)) → List (List ℕ) → Outcome Config
  from_args files arguments = then_do (config_path arguments []) λ path.
      then_do (initial_config files path)
        λ config. then_do (apply_arguments arguments config) validate
