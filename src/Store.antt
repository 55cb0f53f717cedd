-- ===== src/Store.antt =====
-- The tables of prisma/schema.prisma: a record for each model and a list for each table; `minted` counts
-- the ids given out. A
-- `DateTime` that the server stamps is a number of milliseconds since 1970; the wall-clock time of
-- a punch, which a device may set before 1970, is an integer. `updatedAt` is left out.
pub mod Maintains
pub mod Exec
pub mod Preserves
pub mod Total
pub mod Cascade
use adms.Prelude.{ℕ, ℤ, String, Text, Bool, Option, List, [], some}
use adms.Json.{Json}

pub data AdminRole : Type 0 where
  super_admin company_admin : AdminRole

pub data DeviceCommandStatus : Type 0 where
  pending sent acked failed : DeviceCommandStatus

pub record Company : Type 0 where
  pub id : String
  pub name : String
  pub slug : Text

pub record AdminUser : Type 0 where
  pub id : String
  pub email : String
  pub password_hash : String
  pub role : AdminRole
  pub company_id : Option String
  pub must_change_password : Bool

pub record Device : Type 0 where
  pub id : String
  pub company_id : String
  pub serial_number : String
  pub label : Option Text
  pub last_seen_at : Option ℕ
  pub device_secret : String
  pub timezone : String
  pub webhook_url : Option String
  pub webhook_secret : Option String
  pub webhook_enabled : Bool
  pub webhook_headers : Option (List (Text × Text))
  pub webhook_body_template : Option Json
  pub created_at : ℕ

pub record PunchRecord : Type 0 where
  pub id : String
  pub device_id : String
  pub device_pin : Text
  pub punch_time : ℤ
  pub punch_time_utc : Option ℤ
  pub status : ℤ
  pub verify_mode : ℤ
  pub work_code : Option Text
  pub reserved1 : Option Text
  pub reserved2 : Option Text
  pub raw_line : Text
  pub received_at : ℕ
  pub webhook_delivered : Bool
  pub webhook_attempts : ℕ
  pub next_attempt_at : ℕ
  pub last_webhook_error : Option Text
  pub webhook_delivered_at : Option ℕ
  pub webhook_held : Bool

pub record WebhookDelivery : Type 0 where
  pub punch_record_id : String
  pub url : String
  pub attempt : ℕ
  pub status_code : Option ℕ
  pub response_body : Option Text
  pub delivered : Bool
  pub error : Option Text
  pub request_body : Text
  pub request_headers : Text
  pub created_at : ℕ

pub record DeviceCommand : Type 0 where
  pub id : Text
  pub device_id : String
  pub command : Text
  pub status : DeviceCommandStatus
  pub response : Option Text
  pub created_at : ℕ
  pub sent_at : Option ℕ
  pub acked_at : Option ℕ

pub record UnregisteredDevicePing : Type 0 where
  pub serial_number : String
  pub endpoint : String
  pub method : String
  pub query : String
  pub raw_body : Option Text
  pub created_at : ℕ

pub record PendingDevice : Type 0 where
  pub serial_number : String
  pub secret : Option String
  pub company_id : Option String
  pub first_seen_at : ℕ
  pub last_seen_at : ℕ
  pub ping_count : ℕ

pub record DeviceRawLog : Type 0 where
  pub id : String
  pub device_id : String
  pub endpoint : String
  pub method : String
  pub table : Option Text
  pub query : String
  pub headers : String
  pub raw_body : Option Text
  pub created_at : ℕ

pub record RawRequestLog : Type 0 where
  pub id : String
  pub serial_number : Option String
  pub endpoint : String
  pub method : String
  pub query : String
  pub headers : String
  pub raw_body : Option Text
  pub created_at : ℕ

pub record PlatformSettings : Type 0 where
  pub data_retention_days : ℕ
  pub webhook_max_attempts : ℕ
  pub webhook_timeout_ms : ℕ
  pub signups_enabled : Bool

-- The one row that the table has when nothing was ever set.
abbrev pub default_settings : PlatformSettings
default_settings = record {
  data_retention_days = 30;
  webhook_max_attempts = 5;
  webhook_timeout_ms = 8000;
  signups_enabled = Bool.true;
}

pub record Db : Type 0 where
  pub companies : List Company
  pub admin_users : List AdminUser
  pub devices : List Device
  pub punch_records : List PunchRecord
  pub webhook_deliveries : List WebhookDelivery
  pub device_commands : List DeviceCommand
  pub unregistered_pings : List UnregisteredDevicePing
  pub pending_devices : List PendingDevice
  pub device_raw_logs : List DeviceRawLog
  pub raw_request_logs : List RawRequestLog
  pub platform_settings : Option PlatformSettings
  pub minted : ℕ

abbrev pub empty_db : Db
empty_db = record {
  companies = [];
  admin_users = [];
  devices = [];
  punch_records = [];
  webhook_deliveries = [];
  device_commands = [];
  unregistered_pings = [];
  pending_devices = [];
  device_raw_logs = [];
  raw_request_logs = [];
  platform_settings = some default_settings;
  minted = 0;
}
