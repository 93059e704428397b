-- ===== src/Storage/Pager.antt =====
-- storage/pager.rs: the read of a page of a checkpoint file. A file does not change after it is
-- published, so that the page cache holds what a read would give, and is left out.
use eve_db.Base.{ℕ, ◌*◌, ◌^◌, leb, if◌then◌else◌, Error, Result, err, ◌>>=◌, corrupt, plain}
use eve_db.Codec.LittleEndian.{Bytes}
use eve_db.Storage.Frame.{read_exact}
use eve_db.Storage.Page.{page_size}

-- `Pager::page`
unfoldable pub read_page {ℓ} : {A : Type ℓ} → Bytes → ℕ → (Bytes → Result Error A) → Result Error A
read_page file number decode =
    if leb (2 ^ 64) (number * page_size)
    then err (corrupt (plain "page offset overflow"))
    else read_exact page_size file (number * page_size) >>= decode
