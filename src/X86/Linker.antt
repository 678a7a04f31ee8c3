-- ===== src/X86/Linker.antt =====
-- The linker: src/x86/linker.hpp and linker.cpp. A label is a string that is only compared: here
-- a number. The three unordered maps are association lists in the order of their insertions, which
-- stands for the order in which C++ walks over them. Pointers are of 32 bits, as in the code that
-- the compiler emits.
pub mod Patched
use ji_tboy.Base.{
  ℕ, ◌+◌, ◌-◌, ◌%◌, Bool, true, false, List, [], ◌∷◌, Option, none, some, ◌==◌, if◌then◌else◌, u32,
  sub32, Outcome, ok, err, ◌>>=◌, unresolved_symbol,
}
use ji_tboy.VectorBuffer.{bytes, copy_bytes}

abbrev pub Label : Type 0
Label = ℕ

-- `find` and `operator[]` of a map from numbers
unfoldable pub find : List (ℕ × ℕ) → ℕ → Option ℕ
find [] key = none
find ((k, v) ∷ m) key = if k == key then some v else find m key

unfoldable pub insert : List (ℕ × ℕ) → ℕ → ℕ → List (ℕ × ℕ)
insert [] key value = (key, value) ∷ []
insert ((k, v) ∷ m) key value =
    let rest = insert m key value in if k == key then (key, value) ∷ m else (k, v) ∷ rest

pub record Linker : Type 0 where
  pub unresolved_locals : List (ℕ × Label)
  pub local_map : List (Label × ℕ)
  pub global_map : List (Label × ℕ)

unfoldable pub label : Label → ℕ → Linker → Linker
unfolding insert
label name current l = record l { local_map = insert l.local_map name current }

unfoldable pub label_global : Label → ℕ → Linker → Linker
unfolding insert
label_global name addr l = record l { global_map = insert l.global_map name addr }

abbrev pub offset_to : ℕ → Option ℕ → ℕ
offset_to current none = 0
offset_to current (some offset) = sub32 offset current

unfoldable pub resolve_begin : Label → ℕ → Linker → ℕ
unfolding find
resolve_begin name current l = offset_to current (find l.local_map name)

abbrev pub is_found : Option ℕ → Bool
is_found none = false
is_found (some _) = true

unfoldable pub resolve_end : Label → ℕ → Linker → Linker
unfolding find insert
resolve_end name current l =
    if is_found (find l.local_map name)
    then l
    else record l { unresolved_locals = insert l.unresolved_locals current name }

-- `resolve` with the code position `get_current` of a state that `body` changes.
unfoldable pub resolve {ℓ} : {A : Type ℓ} → Label → (A → ℕ) → (ℕ → A → A) → A → Linker → A × Linker
unfolding resolve_begin resolve_end
resolve name get_current body a l =
    let a' = body (resolve_begin name (get_current a) l) a in
    (a', resolve_end name (get_current a') l)

-- The first loop of `terminate_local`: the block's labels become global.
unfoldable pub globalise : ℕ → List (Label × ℕ) → List (Label × ℕ) → List (Label × ℕ)
unfolding insert
globalise block_addr [] globals = globals
globalise block_addr ((name, offset) ∷ locals) globals =
    globalise block_addr locals (insert globals name (block_addr + offset))

-- One round of the second loop: the four bytes in front of `end_ptr` take the distance from there.
abbrev pub patch_site : ℕ → ℕ → (ℕ → ℕ) → ℕ → ℕ
patch_site end_ptr target memory =
    copy_bytes (bytes 4 (u32 (target + 0x1_0000_0000 - u32 end_ptr))) (end_ptr - 4) memory

abbrev pub patch_found : ℕ → (ℕ → ℕ) → Option ℕ → Outcome (ℕ → ℕ)
patch_found end_ptr memory none = err unresolved_symbol
patch_found end_ptr memory (some target) = ok (patch_site end_ptr target memory)

unfoldable pub patch : ℕ → List (Label × ℕ) → List (ℕ × Label) → (ℕ → ℕ) → Outcome (ℕ → ℕ)
unfolding find
patch block_addr globals [] memory = ok memory
patch block_addr globals ((offset_end, name) ∷ sites) memory =
    patch_found (block_addr + offset_end) memory (find globals name)
    >>= patch block_addr globals sites

-- `terminate_local` on the host's memory
unfoldable pub terminate_local : ℕ → Linker → (ℕ → ℕ) → Outcome (Linker × (ℕ → ℕ))
unfolding globalise patch
terminate_local block_addr l memory = do
  let globals = globalise block_addr l.local_map l.global_map
  memory' ← patch block_addr globals l.unresolved_locals memory
  ok (record { unresolved_locals = []; local_map = []; global_map = globals }, memory')
