-- ===== src/Models.antt =====
-- models.go: the rows of the database. The time stamps that gorm itself keeps are left out.
use proxy_balacer.Base.{ℕ, Bytes, Bool, ◌++◌, ◌∷◌, decimal, ℤ}

-- The port of a backend is never negative: it is 0, or comes from a check for more than 0.
pub record Backend : Type 0 where
  pub id : ℕ
  pub name : Bytes
  pub sub_url : Bytes
  pub host : Bytes
  pub port : ℕ
  pub sni : Bytes
  pub primary : Bool
  pub enabled : Bool
  pub last_fetch : ℕ
  pub uuid : Bytes
  pub reality_pub_key : Bytes
  pub reality_short_id : Bytes
  pub reality_spider_x : Bytes
  pub fingerprint : Bytes
  pub flow : Bytes

-- The backend of a row, which gorm can load with it, is left out.
pub record SubConfig : Type 0 where
  pub id : ℕ
  pub backend_id : ℕ
  pub remark : Bytes
  pub host : Bytes
  pub port : ℤ
  pub protocol : Bytes
  pub settings : Bytes
  pub stream_settings : Bytes
  pub raw_link : Bytes

pub record Client : Type 0 where
  pub id : ℕ
  pub name : Bytes
  pub email : Bytes
  pub enabled : Bool

-- The configurations of a subscription are in a table of their own.
pub record Subscription : Type 0 where
  pub id : ℕ
  pub client_id : ℕ
  pub name : Bytes
  pub token : Bytes
  pub enabled : Bool

-- `fmt.Sprintf("%s:%d", b.Host, b.Port)`.
unfoldable pub addr : Backend → Bytes
addr b = b.host ++ (b':' ∷ decimal b.port)
