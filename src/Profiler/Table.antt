-- ===== src/Profiler/Table.antt =====
-- The samples of Profiler.h, and what ProfileBegin and ProfileEnd of Profiler.cpp do with the table of
-- their thread. An `int64_t` is a word below 2 ^ 64; names are the characters before the closing zero.
use mmoserver.Shared.{
  ℕ, ◌+◌, ◌-◌, ◌%◌, ◌^◌, Bool, true, false, ◌&&◌, Option, none, some, List, [], ◌∷◌, ltb, ◌==◌,
  if◌then◌else◌, length, zero, suc,
}
use mathlib.Core.Option as Option

abbrev pub max_int64 : ℕ
max_int64 = 2 ^ 63 - 1

abbrev pub min_int64 : ℕ
min_int64 = 2 ^ 63

-- The order of the words as numbers with a sign.
abbrev pub less : ℕ → ℕ → Bool
less a b = ltb ((a + 2 ^ 63) % 2 ^ 64) ((b + 2 ^ 63) % 2 ^ 64)

abbrev pub minus : ℕ → ℕ → ℕ
minus a b = (a + (2 ^ 64 - b)) % 2 ^ 64

pub record ProfileData : Type 0 where
  pub start_time : ℕ
  pub total_time : ℕ
  pub min_0 : ℕ
  pub min_1 : ℕ
  pub max_0 : ℕ
  pub max_1 : ℕ
  pub call : ℕ

abbrev pub new_data : ProfileData
new_data = record {
  start_time = 0;
  total_time = 0;
  min_0 = max_int64;
  min_1 = max_int64;
  max_0 = min_int64;
  max_1 = min_int64;
  call = 0;
}

pub record ProfileInfo : Type 0 where
  pub tag_name : List ℕ
  pub sample_data : ProfileData
  pub used : Bool
  pub thread_id : ℕ

abbrev pub new_info : ProfileInfo
new_info = record { tag_name = []; sample_data = new_data; used = false; thread_id = 0 }

abbrev pub tag_max : ℕ
tag_max = 100

-- The array of a thread, with `n` elements.
unfoldable pub new_table : ℕ → List ProfileInfo
new_table zero = []
new_table (suc n) = new_info ∷ new_table n

-- Whether wcscmp gives 0.
abbrev pub same_name : List ℕ → List ℕ → Bool
same_name [] [] = true
same_name [] (b ∷ ys) = false
same_name (a ∷ xs) [] = false
same_name (a ∷ xs) (b ∷ ys) = a == b && same_name xs ys

-- The first loop of both: the index of the name.
abbrev pub find_tag : List ℕ → List ProfileInfo → Option ℕ
find_tag name [] = none
find_tag name (info ∷ rest) =
    let later = Option.map suc (find_tag name rest) in
    if same_name info.tag_name name then some 0 else later

-- The second loop of ProfileBegin: the index of an element that is not in use.
abbrev pub find_unused : List ProfileInfo → Option ℕ
find_unused [] = none
find_unused (info ∷ rest) =
    let later = Option.map suc (find_unused rest) in if info.used then later else some 0

abbrev pub modify : ℕ → (ProfileInfo → ProfileInfo) → List ProfileInfo → List ProfileInfo
modify i f [] = []
modify zero f (info ∷ rest) = f info ∷ rest
modify (suc i) f (info ∷ rest) = info ∷ modify i f rest

abbrev pub restart : ℕ → ProfileInfo → ProfileInfo
restart begin_time info = record info {
  sample_data = record (info.sample_data) { start_time = begin_time };
}

abbrev pub register : List ℕ → ℕ → ℕ → ProfileInfo → ProfileInfo
register name id begin_time info = record info {
  used = true;
  tag_name = name;
  thread_id = id;
  sample_data = record (info.sample_data) { start_time = begin_time };
}

-- ProfileBegin on the table of thread `id`, by the index of the name and that of an element that is
-- not in use; `none` when wcscpy_s does not find room for the name.
abbrev pub begin_at :
    Option ℕ → Option ℕ → List ℕ → ℕ → ℕ → List ProfileInfo → Option (List ProfileInfo)
begin_at (some i) unused name id begin_time table = some (modify i (restart begin_time) table)
begin_at none (some i) name id begin_time table =
    if ltb (length name) 128 then some (modify i (register name id begin_time) table) else none
begin_at none none name id begin_time table = some table

unfoldable pub begin_in : List ℕ → ℕ → ℕ → List ProfileInfo → Option (List ProfileInfo)
begin_in name id begin_time table =
    begin_at (find_tag name table) (find_unused table) name id begin_time table

-- The two greatest times, and the two smallest.
abbrev pub set_max : ℕ → ProfileData → ProfileData
set_max working_time d =
    if less d.max_0 working_time
    then record d { max_1 = d.max_0; max_0 = working_time }
    else (if less d.max_1 working_time then record d { max_1 = working_time } else d)

abbrev pub set_min : ℕ → ProfileData → ProfileData
set_min working_time d =
    if less working_time d.min_0
    then record d { min_1 = d.min_0; min_0 = working_time }
    else (if less working_time d.min_1 then record d { min_1 = working_time } else d)

unfoldable pub add_sample : ℕ → ProfileData → ProfileData
add_sample end_time d =
    let working_time = minus end_time d.start_time in
    set_min working_time (
      set_max working_time (record d {
        total_time = (d.total_time + working_time) % 2 ^ 64;
        call = (d.call + 1) % 2 ^ 64;
      }))

abbrev pub finish : ℕ → ProfileInfo → ProfileInfo
finish end_time info = record info { sample_data = add_sample end_time info.sample_data }

-- ProfileEnd on the table of its thread, by the index of the name; `none` for Crash.
abbrev pub end_at : Option ℕ → ℕ → List ProfileInfo → Option (List ProfileInfo)
end_at (some i) end_time table = some (modify i (finish end_time) table)
end_at none end_time table = none

unfoldable pub end_in : List ℕ → ℕ → List ProfileInfo → Option (List ProfileInfo)
end_in name end_time table = end_at (find_tag name table) end_time table

-- What ProfileDataOutText divides for the average: by the calls less four.
unfoldable pub valuable_result : ProfileData → ℕ
valuable_result d = minus d.total_time ((d.max_0 + d.max_1 + d.min_0 + d.min_1) % 2 ^ 64)
