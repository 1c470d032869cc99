-- ===== src/Debmod/RegNames.antt =====
-- pc_debmod.cpp, arm_debmod.cpp: registers by their names, without regard to case, on 32-bit targets.
use reverse_engineearing.Base.{
  ℕ, ◌+◌, Bool, true, false, ◌&&◌, Option, none, some, List, [], ◌∷◌, leb, ◌==◌, if◌then◌else◌,
  codes,
}

-- `tolower` on a character of ASCII.
to_lower : ℕ → ℕ
to_lower c = if leb 65 c && leb c 90 then c + 32 else c

-- `stricmp(a, b) == 0`.
same_name : List ℕ → List ℕ → Bool
unfolding to_lower
same_name [] [] = true
same_name [] (y ∷ ys) = false
same_name (x ∷ xs) [] = false
same_name (x ∷ xs) (y ∷ ys) = to_lower x == to_lower y && same_name xs ys

find_name : List ℕ → ℕ → List (List ℕ) → Option ℕ
unfolding same_name
find_name name i [] = none
find_name name i (n ∷ names) =
    let later = find_name name (i + 1) names in if same_name name n then some i else later

abbrev pc_names : List (List ℕ)
pc_names =
    codes "EAX"
    ∷ codes "EBX"
    ∷ codes "ECX"
    ∷ codes "EDX"
    ∷ codes "ESI"
    ∷ codes "EDI"
    ∷ codes "EBP"
    ∷ codes "ESP"
    ∷ codes "EIP"
    ∷ []

abbrev arm_names : List (List ℕ)
arm_names =
    codes "R0"
    ∷ codes "R1"
    ∷ codes "R2"
    ∷ codes "R3"
    ∷ codes "R4"
    ∷ codes "R5"
    ∷ codes "R6"
    ∷ codes "R7"
    ∷ codes "R8"
    ∷ codes "R9"
    ∷ codes "R10"
    ∷ codes "R11"
    ∷ codes "R12"
    ∷ codes "SP"
    ∷ codes "LR"
    ∷ codes "PC"
    ∷ codes "PSR"
    ∷ []

-- The register's number and its class, or -1.
found : ℕ → Option ℕ → Option (ℕ × ℕ)
found first none = none
found first (some i) = some (first + i, 1)

-- `R_EAX` is 17, behind the registers of the coprocessor and the segments.
pub pc_get_regidx : List ℕ → Option (ℕ × ℕ)
unfolding find_name found
pc_get_regidx regname = found 17 (find_name regname 0 pc_names)

-- `R_R0` is 0.
pub arm_get_regidx : List ℕ → Option (ℕ × ℕ)
unfolding find_name found
arm_get_regidx regname = found 0 (find_name regname 0 arm_names)
