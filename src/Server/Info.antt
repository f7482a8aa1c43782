-- ===== src/Server/Info.antt =====
-- internal/server/handlers_admin.go: INFO. Its three calls of the store read the clock one by one.
use hybrid_vector_cache_hnsw.Common.{List, [], ◌∷◌, ◌++◌, length}
use hybrid_vector_cache_hnsw.Common.Int.{ℤ}
use hybrid_vector_cache_hnsw.Common.Bytes.{Bytes, bytes}
use hybrid_vector_cache_hnsw.Protocol.Response.{Response, bulk, decimal, itoa}
use hybrid_vector_cache_hnsw.Store.{Store}
use hybrid_vector_cache_hnsw.Store.Kv.{kv_count}
use hybrid_vector_cache_hnsw.Store.Listing.{NamespaceInfo, vns_list, total_vectors}

-- A line of the text
abbrev pub info_line : Bytes → Bytes → Bytes
info_line name value = name ++ (value ++ bytes "\r\n")

-- The three lines of each namespace
unfoldable pub namespace_lines : List NamespaceInfo → Bytes
namespace_lines [] = []
namespace_lines (i ∷ is) =
    info_line (bytes "ns:" ++ (i.name ++ bytes ":vectors:")) (decimal i.vector_count)
    ++ (info_line (bytes "ns:" ++ (i.name ++ bytes ":approx_memory_bytes:"))
          (decimal i.approx_memory)
        ++ (info_line (bytes "ns:" ++ (i.name ++ bytes ":ttl:")) (itoa i.ttl_remaining)
            ++ namespace_lines is))

abbrev pub namespace_section : List NamespaceInfo → Bytes
namespace_section [] = []
namespace_section (i ∷ is) = bytes "# Vector Namespaces\r\n" ++ namespace_lines (i ∷ is)

-- handleInfo
unfoldable pub handle_info : ℤ → ℤ → ℤ → Store → Response
handle_info now later last s =
    let infos = vns_list last s in
    bulk (
      bytes "# Server\r\nversion:1.1.0\r\n# Keyspace\r\n"
      ++ (info_line (bytes "kv_keys:") (decimal (kv_count now s))
          ++ (bytes "# Vectors\r\n"
              ++ (info_line (bytes "vector_namespaces:") (decimal (length infos))
                  ++ (info_line (bytes "total_vectors:") (decimal (total_vectors later s))
                      ++ namespace_section infos)))))
