-- ===== src/Virtio9p/Strings.antt =====
-- src/c/virtio9p.c, the strings: copies into buffers of a capacity, and the split of a path.
use isiki.Prelude.{ℕ, suc, ◌-◌, List, [], ◌∷◌, ◌++◌, ltb, ◌==◌, if◌then◌else◌, length, take}
use isiki.P9.{Text}

abbrev pub slash : ℕ
slash = 47

abbrev pub max_path_components : ℕ
max_path_components = 8

-- The string in `dst` afterwards, up to its NUL.
unfoldable pub str_copy : ℕ → Text → Text
str_copy capacity src = take (capacity - 1) src

unfoldable pub str_append : Text → ℕ → Text → Text
str_append dst capacity src = dst ++ take (capacity - 1 - length dst) src

-- A byte in front of the first component.
abbrev pub in_front : ℕ → List Text → List Text
in_front c [] = []
in_front c (name ∷ names) = (c ∷ name) ∷ names

-- The loop of `split_path` at `p`, with `count` components begun: the rest of the current component,
-- and the components behind it. The last of eight keeps what is left of the path.
unfoldable pub split_loop : ℕ → Text → List Text
split_loop count [] = [] ∷ []
split_loop count (c ∷ rest) =
    let next = split_loop (suc count) rest in
    let same_one = split_loop count rest in
    if ltb count max_path_components
    then (if c == slash then [] ∷ next else in_front c same_one)
    else (c ∷ rest) ∷ []

unfoldable pub split_path : Text → List Text
unfolding split_loop
split_path [] = split_loop 1 []
split_path (c ∷ rest) = if c == slash then split_loop 1 rest else split_loop 1 (c ∷ rest)
