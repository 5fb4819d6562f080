-- ===== src/Store/Listing.antt =====
-- `File.List` against `File.Get`.
use cf_herdr_poc.Base.{String, ◌≡◌, ◌∙◌, ap, lookup}
use cf_herdr_poc.Store.{File, values, list, get}
use cf_herdr_poc.Store.Order.{
  IsSorted, Distinct, keyed, sort-IsSorted, lookup-sort, keyed-values, Distinct-sort,
}
use cf_herdr_poc.Store.Laws.{IsWellFormed}

module _ {W : Type 0} where
  -- If the map is well formed, the list of the store is sorted by time of creation and name, no two
  -- of its sandboxes have one name, and under each name it has what `Get` returns.
  pub list-get :
      (f : File W) (name : String)
      → IsWellFormed f.sandboxes
      → IsSorted (list f) × Distinct (keyed (list f)) × (lookup name (keyed (list f)) ≡ get f name)
  unfolding list get
  list-get f name h =
      let known = keyed-values f.sandboxes h.named in
      let apart : Distinct (keyed (values f.sandboxes)) = rw known h.distinct in
      (
        sort-IsSorted (values f.sandboxes),
        Distinct-sort (values f.sandboxes) apart,
        lookup-sort name (values f.sandboxes) apart ∙ ap (lookup name) known,
      )
