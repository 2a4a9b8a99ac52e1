-- ===== src/Preproc/BaseCopypaste.antt =====
-- internal/preproc/base_copypaste.go: the text in front of every block. Its packages are listed one by
-- one, so that statements can speak of them.
use noted_runner.Prelude.{List, [], ◌∷◌, ◌++◌, map, Text, ascii}

abbrev pub std_packages : List Text
std_packages = map ascii (
    "archive/tar" ∷ "archive/zip" ∷ "bufio" ∷ "bytes" ∷ "cmp" ∷ "compress/bzip2" ∷ "compress/flate"
    ∷ "compress/gzip" ∷ "compress/lzw" ∷ "compress/zlib" ∷ "container/heap" ∷ "container/list"
    ∷ "container/ring" ∷ "context" ∷ "crypto" ∷ "crypto/aes" ∷ "crypto/cipher" ∷ "crypto/des"
    ∷ "crypto/dsa" ∷ "crypto/ecdh" ∷ "crypto/ecdsa" ∷ "crypto/ed25519" ∷ "crypto/elliptic"
    ∷ "crypto/fips140" ∷ "crypto/hkdf" ∷ "crypto/hmac" ∷ "crypto/md5" ∷ "crypto/mlkem"
    ∷ "crypto/pbkdf2" ∷ "crypto/rand" ∷ "crypto/rc4" ∷ "crypto/rsa" ∷ "crypto/sha1"
    ∷ "crypto/sha256" ∷ "crypto/sha3" ∷ "crypto/sha512" ∷ "crypto/subtle" ∷ "crypto/tls"
    ∷ "crypto/x509" ∷ "crypto/x509/pkix" ∷ "database/sql" ∷ "database/sql/driver" ∷ "encoding"
    ∷ "encoding/ascii85" ∷ "encoding/asn1" ∷ "encoding/base32" ∷ "encoding/base64"
    ∷ "encoding/binary" ∷ "encoding/csv" ∷ "encoding/gob" ∷ "encoding/hex" ∷ "encoding/json"
    ∷ "encoding/pem" ∷ "encoding/xml" ∷ "errors" ∷ "expvar" ∷ "flag" ∷ "fmt" ∷ "go/ast" ∷ "go/build"
    ∷ "go/build/constraint" ∷ "go/constant" ∷ "go/doc" ∷ "go/doc/comment" ∷ "go/format"
    ∷ "go/importer" ∷ "go/parser" ∷ "go/printer" ∷ "go/scanner" ∷ "go/token" ∷ "go/types"
    ∷ "go/version" ∷ "hash" ∷ "hash/adler32" ∷ "hash/crc32" ∷ "hash/crc64" ∷ "hash/fnv"
    ∷ "hash/maphash" ∷ "html" ∷ "html/template" ∷ "image" ∷ "image/color" ∷ "image/color/palette"
    ∷ "image/draw" ∷ "image/gif" ∷ "image/jpeg" ∷ "image/png" ∷ "index/suffixarray" ∷ "iter" ∷ "log"
    ∷ "log/slog" ∷ "log/syslog" ∷ "maps" ∷ "math" ∷ "math/big" ∷ "math/bits" ∷ "math/cmplx"
    ∷ "math/rand" ∷ "math/rand/v2" ∷ "mime" ∷ "mime/multipart" ∷ "mime/quotedprintable" ∷ "reflect"
    ∷ "regexp" ∷ "regexp/syntax" ∷ "slices" ∷ "sort" ∷ "strconv" ∷ "strings" ∷ "structs" ∷ "sync"
    ∷ "sync/atomic" ∷ "testing" ∷ "testing/fstest" ∷ "testing/iotest" ∷ "testing/quick"
    ∷ "testing/slogtest" ∷ "testing/synctest" ∷ "text/scanner" ∷ "text/tabwriter" ∷ "text/template"
    ∷ "text/template/parse" ∷ "time" ∷ "time/tzdata" ∷ "unicode" ∷ "unicode/utf16" ∷ "unicode/utf8"
    ∷ "unique" ∷ [])

-- one line of the import declaration
abbrev pub import_line : Text → Text
import_line path = ascii "        \"" ++ path ++ ascii "\"\n"

pub import_lines : List Text → Text
import_lines [] = []
import_lines (p ∷ ps) = import_line p ++ import_lines ps

unfoldable pub base_copypaste : Text
unfolding import_lines
base_copypaste = ascii "\npackage main\n\nimport (\n" ++ import_lines std_packages ++ ascii ")\n"
