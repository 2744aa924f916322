-- ===== src/Build.antt =====
-- What the headers find out about the compiler: src/include/speckit/log/platform.h and
-- src/include/speckit/log/features.h.
mod Laws
mod Tests
use app_simple_log.Prelude.{
  ℕ, ◌≡◌, Bool, true, false, not, Option, none, some, leb, ◌==◌, if◌then◌else◌,
}
use app_simple_log.FileManager.Ownership.{Platform, windows, macos, elsewhere}

-- The macros that the headers test. `target_os_mac` is the one of TargetConditionals.h, which an Apple
-- compiler includes.
pub data Macro : Type 0 where
  win32 win64 apple target_os_mac : Macro
  m_x64 x86_64 m_arm64 aarch64 : Macro
  cpp_lib_format cpp_lib_jthread cpp_lib_source_location cpp_lib_atomic_ref : Macro
  msc_ver clang clang_major : Macro

-- What a compiler predefines: `none` for a macro that is not defined, and otherwise its value.
abbrev pub Compiler : Type 0
Compiler = Macro → Option ℕ

abbrev pub defined : Compiler → Macro → Bool
defined c m = elim (c m) [ none ↦ false | some value ↦ true ]

-- In a comparison, a name that is not defined counts as 0.
abbrev pub value_of : Compiler → Macro → ℕ
value_of c m = elim (c m) [ none ↦ 0 | some value ↦ value ]

-- `SPECKIT_PLATFORM_WINDOWS`, `SPECKIT_PLATFORM_MACOS` or neither; `none` is an `#error`.
unfoldable pub detect_platform : Compiler → Option Platform
detect_platform c =
    if defined c win32
    then some windows
    else if defined c win64
    then some windows
    else if defined c apple
    then if value_of c target_os_mac == 0 then some elsewhere else some macos
    else none

pub data Architecture : Type 0 where
  x64 arm64 : Architecture

unfoldable pub detect_architecture : Compiler → Option Architecture
detect_architecture c =
    if defined c m_x64
    then some x64
    else if defined c x86_64
    then some x64
    else if defined c m_arm64
    then some arm64
    else if defined c aarch64
    then some arm64
    else none

-- What `SPECKIT_EXPORT` and `SPECKIT_IMPORT` stand for.
pub data Attribute : Type 0 where
  dllexport dllimport visibility_default no_attribute : Attribute

-- The types behind `ProcessIdType` and `ThreadIdType`.
pub data IdType : Type 0 where
  dword pid_t std_thread_id : IdType

pub record PlatformHeader : Type 0 where
  pub platform : Platform
  pub architecture : Architecture
  pub speckit_export : Attribute
  pub speckit_import : Attribute
  pub process_id_type : IdType
  pub thread_id_type : IdType

abbrev pub platform_definitions : Architecture → Platform → PlatformHeader
platform_definitions a windows = record {
  platform = windows;
  architecture = a;
  speckit_export = dllexport;
  speckit_import = dllimport;
  process_id_type = dword;
  thread_id_type = dword;
}
platform_definitions a p = record {
  platform = p;
  architecture = a;
  speckit_export = visibility_default;
  speckit_import = no_attribute;
  process_id_type = pid_t;
  thread_id_type = std_thread_id;
}

-- The whole of platform.h; `none`: it does not compile.
unfoldable pub platform_header : Compiler → Option PlatformHeader
unfolding detect_platform detect_architecture
platform_header c = elim (detect_platform c) [
  | none ↦ none
  | some p ↦ elim (detect_architecture c) [ none ↦ none | some a ↦ some (platform_definitions a p) ]
]

-- features.h. The last two are not defined by every compiler.
pub record Features : Type 0 where
  pub has_format : Bool
  pub has_jthread : Bool
  pub has_source_location : Bool
  pub has_atomic_ref : Bool
  pub msvc_2022_or_later : Option Bool
  pub clang_14_or_later : Option Bool

unfoldable pub features : Compiler → Features
features c = record {
  has_format = if defined c cpp_lib_format then leb 201907 (value_of c cpp_lib_format) else false;
  has_jthread = defined c cpp_lib_jthread;
  has_source_location = defined c cpp_lib_source_location;
  has_atomic_ref = defined c cpp_lib_atomic_ref;
  msvc_2022_or_later = if defined c msc_ver then some (leb 1930 (value_of c msc_ver)) else none;
  clang_14_or_later = if defined c clang then some (leb 14 (value_of c clang_major)) else none;
}
