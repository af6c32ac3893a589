-- ===== src/Profiler/Calls.antt =====
-- ProfileBegin and ProfileEnd of Profiler.cpp: the tables of the threads.
use mmoserver.Shared.{
  zero, suc, [], ◌∷◌, ℕ, ◌+◌, Option, none, some, List, [], ◌>>=◌, if◌then◌else◌, ltb, suc,
}
use mmoserver.Families.{assign}
use mmoserver.Profiler.Table.{
  valuable_result, minus, ProfileData, ProfileInfo, new_table, tag_max, begin_in, end_in,
}
use mmoserver.Profiler.Lookup.{data_of}

-- `tables` is `m_ProfileIndex` + 1, `m_ProfileManager` has 100 elements, and `tls` gives for a thread
-- the index of its table.
pub record Profiler : Type 0 where
  pub profile_manager : ℕ → List ProfileInfo
  pub tables : ℕ
  pub tls : ℕ → Option ℕ

abbrev pub max_info : ℕ
max_info = 100

abbrev pub new_profiler : Profiler
new_profiler = record { profile_manager = λ k. []; tables = 0; tls = λ id. none }

abbrev pub set_table : Profiler → ℕ → List ProfileInfo → Profiler
set_table p k t = record p { profile_manager = assign p.profile_manager k t }

-- The table of a thread, which is a new one when it has none; `none` behind the end of
-- `m_ProfileManager`.
abbrev pub own_or_new : Option ℕ → ℕ → Profiler → Option (ℕ × Profiler)
own_or_new (some k) id p = some (k, p)
own_or_new none id p =
    if ltb p.tables max_info
    then some (
      p.tables,
      record {
        profile_manager = assign p.profile_manager p.tables (new_table tag_max);
        tables = p.tables + 1;
        tls = assign p.tls id (some p.tables);
      },
    )
    else none

unfoldable pub own_table : ℕ → Profiler → Option (ℕ × Profiler)
own_table id p = own_or_new (p.tls id) id p

-- The calls of thread `id`, at a time of the clock; `none` when they crash.
unfoldable pub profile_begin : ℕ → List ℕ → ℕ → Profiler → Option Profiler
profile_begin id name begin_time p = own_table id p >>= λ (k, q).
    begin_in name id begin_time (q.profile_manager k) >>= λ t. some (set_table q k t)

unfoldable pub profile_end : ℕ → List ℕ → ℕ → Profiler → Option Profiler
profile_end id name end_time p =
    p.tls id >>= λ k. end_in name end_time (p.profile_manager k) >>= λ t. some (set_table p k t)

-- The sample data of a thread for a name.
abbrev pub sample : ℕ → List ℕ → Profiler → Option ProfileData
sample id name p = p.tls id >>= λ k. data_of name (p.profile_manager k)

-- A line of ProfileDataOutText: the thread, the tag, the value that is divided for the average with
-- the number that it is divided by, the least and the greatest time, and the calls.
pub record Row : Type 0 where
  pub thread : ℕ
  pub name : List ℕ
  pub value : ℕ
  pub divisor : ℕ
  pub least : ℕ
  pub greatest : ℕ
  pub calls : ℕ

abbrev pub row : ProfileInfo → Row
row info = record {
  thread = info.thread_id;
  name = info.tag_name;
  value = valuable_result info.sample_data;
  divisor = minus info.sample_data.call 4;
  least = info.sample_data.min_0;
  greatest = info.sample_data.max_0;
  calls = info.sample_data.call;
}

-- The lines of one table.
abbrev pub rows : List ProfileInfo → List Row
rows [] = []
rows (info ∷ rest) = let later = rows rest in if info.used then row info ∷ later else later

-- The lines of the tables, from the one with number `k` on.
abbrev tables_from : ℕ → ℕ → Profiler → List (List Row)
tables_from zero k p = []
tables_from (suc n) k p = rows (p.profile_manager k) ∷ tables_from n (k + 1) p

unfoldable pub profile_data_out_text : Profiler → List (List Row)
profile_data_out_text p = tables_from p.tables 0 p
