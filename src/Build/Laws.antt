-- ===== src/Build/Laws.antt =====
-- Where the headers compile: src/include/speckit/log/platform.h.
use app_simple_log.Prelude.{
  ◌≡◌, refl, ◌↔◌, ◌⊎◌, inl, inr, Bool, true, false, some, ◌==◌, Bool-cases, Option-cases,
  if◌then◌else◌, arith,
}
use app_simple_log.FileManager.Ownership.{elsewhere, macos, windows}
use app_simple_log.Build.{
  Macro, x64, arm64, win32, win64, apple, target_os_mac, value_of, m_x64, x86_64, m_arm64, aarch64,
  Compiler, defined, detect_platform, detect_architecture, PlatformHeader, platform_header,
  platform_definitions,
}

abbrev Defines : Compiler → Macro → Type 0
Defines c m = defined c m ≡ true

abbrev KnownSystem : Compiler → Type 0
KnownSystem c = Defines c win32 ⊎ Defines c win64 ⊎ Defines c apple

abbrev KnownProcessor : Compiler → Type 0
KnownProcessor c = Defines c m_x64 ⊎ Defines c x86_64 ⊎ Defines c m_arm64 ⊎ Defines c aarch64

if-some :
    {A : Type 0} (b : Bool) (x y : A) → (if b then some x else some y) ≡ some (if b then x else y)
if-some true x y = refl
if-some false x y = refl

-- `#if` and `#elif` pick something exactly if one of their conditions holds.
detect_platform_iff : (c : Compiler) → ((p : _) × (detect_platform c ≡ some p)) ↔ KnownSystem c
unfolding detect_platform
detect_platform_iff c = elim (Bool-cases (defined c win32)) [
  | inl is_32 ↦ (λ found. inl is_32, λ known. (windows, rw is_32 refl))
  | inr not_32 ↦ elim (Bool-cases (defined c win64)) [
    | inl is_64 ↦ (λ found. inr (inl is_64), λ known. (windows, rw (not_32, is_64) refl))
    | inr not_64 ↦ elim (Bool-cases (defined c apple)) [
      | inl is_apple ↦ (
        λ found. inr (inr is_apple),
        λ known. (
          (if value_of c target_os_mac == 0 then elsewhere else macos),
          rw (not_32, not_64, is_apple) (if-some (value_of c target_os_mac == 0) elsewhere macos),
        ),
      )
      | inr not_apple ↦
          (λ found. absurd (ground (arith, found.1)), λ known. absurd (ground (arith, known)))
    ]
  ]
]

detect_architecture_iff :
    (c : Compiler) → ((a : _) × (detect_architecture c ≡ some a)) ↔ KnownProcessor c
unfolding detect_architecture
detect_architecture_iff c = elim (Bool-cases (defined c m_x64)) [
  | inl first ↦ (λ found. inl first, λ known. (x64, rw first refl))
  | inr not_first ↦ elim (Bool-cases (defined c x86_64)) [
    | inl second ↦ (λ found. inr (inl second), λ known. (x64, rw (not_first, second) refl))
    | inr not_second ↦ elim (Bool-cases (defined c m_arm64)) [
      | inl third ↦
          (λ found. inr (inr (inl third)), λ known. (arm64, rw (not_first, not_second, third) refl))
      | inr not_third ↦ elim (Bool-cases (defined c aarch64)) [
        | inl fourth ↦ (
          λ found. inr (inr (inr fourth)),
          λ known. (arm64, rw (not_first, not_second, not_third, fourth) refl),
        )
        | inr not_fourth ↦
            (λ found. absurd (ground (arith, found.1)), λ known. absurd (ground (arith, known)))
      ]
    ]
  ]
]

-- platform.h compiles exactly if the compiler defines a macro of Windows or of Apple and a macro of an
-- x64 or of an ARM64 processor.
platform_header_iff :
    (c : Compiler)
    → ((h : PlatformHeader) × (platform_header c ≡ some h)) ↔ (KnownSystem c × KnownProcessor c)
unfolding platform_header
platform_header_iff c = elim (Option-cases (detect_platform c)) [
  | inl unknown ↦ (
    λ found. absurd (ground (arith, found.1, unknown)),
    λ known. absurd (ground (arith, unknown, ((detect_platform_iff c).1 known.0).1)),
  )
  | inr (p, system) ↦ elim (Option-cases (detect_architecture c)) [
    | inl unknown ↦ (
      λ found. absurd (ground (arith, found.1, system, unknown)),
      λ known. absurd (ground (arith, unknown, ((detect_architecture_iff c).1 known.1).1)),
    )
    | inr (a, processor) ↦ (
      λ found.
          ((detect_platform_iff c).0 (p, system), (detect_architecture_iff c).0 (a, processor)),
      λ known. (platform_definitions a p, ground (arith, system, processor)),
    )
  ]
]
