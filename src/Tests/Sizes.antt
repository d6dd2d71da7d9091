-- ===== src/Tests/Sizes.antt =====
-- Insertion, growth, rebuild and trim at concrete tables.
use singlestoredb_extension.Base.{ℕ, ◌≡◌, refl, List, ok, Returns, arith, replicate}
use singlestoredb_extension.Table.{insert, resize, rebuild, trim}
use singlestoredb_extension.Table.Insert.{IsTable, Inserted, insert-Inserted}
use singlestoredb_extension.Table.Resize.{Rehashed, resize-Rehashed}
use singlestoredb_extension.Table.Rebuild.{Trimmed, rebuild-Trimmed}
use singlestoredb_extension.Table.Trim.{Cut, trim-Cut}
use singlestoredb_extension.Tests.Tables.{
  two_table, two_table-IsTable, two_keys-Miss, many_table, many_table-IsTable, many_entries,
}

insert-Inserted_example :
    Returns (insert two_table 8 37) (λ t'. IsTable t' × Inserted 37 two_table t')
unfolding replicate two_keys-Miss
insert-Inserted_example =
    insert-Inserted two_table-IsTable 37 (omega arith) (omega arith) two_keys-Miss

resize-Rehashed_example :
    (entries : List ℕ) × (resize two_table
      ≡ ok (record two_table { entries = entries; lg_cur_size = 6 }))
    × Rehashed 6 two_table.entries entries
unfolding replicate
resize-Rehashed_example =
    resize-Rehashed two_table (omega arith) (omega arith) (omega arith) refl (λ j nz. ground arith)
      (omega arith)

rebuild-Trimmed_example :
    (theta : ℕ) × (entries : List ℕ) × (rebuild many_table
      ≡ ok (record many_table { theta = theta; entries = entries; num_entries = 16 }))
    × Trimmed 5 16 theta many_entries entries
unfolding replicate
rebuild-Trimmed_example =
    rebuild-Trimmed many_table many_table-IsTable.placed refl (omega arith) (omega arith)

trim-Cut_example : Returns (trim many_table) (Cut many_table)
trim-Cut_example = trim-Cut many_table-IsTable
