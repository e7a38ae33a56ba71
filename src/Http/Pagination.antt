-- ===== src/Http/Pagination.antt =====
-- internal/httpapi/server.go: parsePagination and paginateBounds, and the slice that the handlers
-- of lists take between the bounds.
pub mod Slices
use Prim.Native.Nat.{◌%◌, ◌^◌}
use visto_easy.Prelude.{
  not, ◌||◌, List, length, take, drop, ℕ, zero, suc, ◌+◌, ◌*◌, ◌-◌, Bool, true, false, String,
  Option, none, some, ◌==◌, if◌then◌else◌, on_some, trim_space, ltb, leb,
}
use visto_easy.Prelude.Int.{ℤ, pos, negsuc}
use visto_easy.Http.Signature.{parse_int}

-- A parameter of the query that is a positive number, or the default. `strconv.Atoi` reads what
-- `strconv.ParseInt` reads.
abbrev pub positive_or : Option ℤ → ℕ → ℕ
positive_or (some (pos (suc n))) default = suc n
positive_or _ default = default

-- `if v > 200 { v = 200 }`
abbrev at_most_200 : ℕ → ℕ
at_most_200 v = if ltb 200 v then 200 else v

-- The page and its size for the texts of `page` and `page_size`, empty where they are missing.
unfoldable pub parse_pagination : String → String → ℕ × ℕ
parse_pagination page page_size = (
  positive_or (parse_int (trim_space page)) 1,
  at_most_200 (positive_or (parse_int (trim_space page_size)) 25),
)

-- An `int`, as the 64 bits of its two's complement.
abbrev pub word : ℕ → ℕ
word n = n % 2 ^ 64

abbrev pub is_negative : ℕ → Bool
is_negative n = leb (2 ^ 63) n

-- `a < b` for words, of which the second is not negative.
abbrev pub less : ℕ → ℕ → Bool
less a b = is_negative a || ltb a b

-- The bounds for a total, a page and its size, all as parsePagination makes them. The product and
-- the sum wrap around.
unfoldable pub paginate_bounds : ℕ → ℕ → ℕ → ℕ × ℕ
paginate_bounds total page page_size =
    let start = word ((page - 1) * page_size) in
    let end_ = word (start + page_size) in
    if leb total 0
    then (0, 0)
    else if not (less start total)
    then (total, total)
    else (start, if is_negative end_ || leb end_ total then end_ else total)

-- `items[start:end]`: none where Go panics, the bounds being negative, out of order or too large.
unfoldable pub slice_items {ℓ} : {A : Type ℓ} → List A → ℕ × ℕ → Option (List A)
slice_items items (start, end_) =
    if is_negative start || is_negative end_ || ltb end_ start || ltb (length items) end_
    then none
    else some (take (end_ - start) (drop start items))

-- What the handlers that list do: the page of the items.
unfoldable pub page_of {ℓ} : {A : Type ℓ} → List A → ℕ → ℕ → Option (List A)
unfolding paginate_bounds slice_items
page_of items page page_size = slice_items items (paginate_bounds (length items) page page_size)
